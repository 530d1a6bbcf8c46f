-- ===== src/Dependencies/Fresh.antt =====
-- The inner loop of getBlastRadius pushes one list, the ids that are new, on all three lists.
use mathlib.Core.List.{append_assoc, append-nil}
use mcp_coordinator.Prelude.{
  ℕ, suc, ◌+◌, ◌≤◌, ◌≡◌, refl, sym, ap, ◌∙◌, subst, inl, inr, String, true, false, not, ◌||◌, List,
  [], ◌∷◌, ◌++◌, ◌==◌, eq_iff, eq_refl, includes, length, map, if◌then◌else◌, Memᴰ, head, tail,
  arith, Bool-cases, Mem-append_left, Mem-append_right, any_of_Mem, any_witness,
}
use mcp_coordinator.Table.{count_where}
use mcp_coordinator.Dependencies.{ModuleInfo, Search, visit, visit_one}

-- The ids that are not visited yet, each once.
unfoldable pub fresh : List String → List String → List String
fresh visited [] = []
fresh visited (id ∷ ids) =
    if includes visited id then fresh visited ids else id ∷ fresh (visited ++ id ∷ []) ids

pub Mem-includes : {x : String} {xs : List String} → Memᴰ x xs → includes xs x ≡ true
Mem-includes {x} m = any_of_Mem (λ y. y == x) m (eq_refl x)

pub Mem_of_includes : (x : String) (xs : List String) → includes xs x ≡ true → Memᴰ x xs
Mem_of_includes x xs h =
    let (y, m, e) = any_witness (λ y. y == x) xs h in subst (λ z. Memᴰ z xs) ((eq_iff y x).0 e) m

-- The loop appends the new ids everywhere.
pub visit_lem :
    (ids : List String) (s : Search)
    → visit ids s ≡ record {
      queue = s.queue ++ fresh s.visited ids;
      visited = s.visited ++ fresh s.visited ids;
      indirect = s.indirect ++ fresh s.visited ids;
    }
unfolding visit fresh
visit_lem [] s = rw (append-nil s.queue, append-nil s.visited, append-nil s.indirect)
visit_lem (id ∷ ids) s = elim (Bool-cases (includes s.visited id)) [
  | inl seen ↦ rw seen (visit_lem ids s)
  | inr new ↦
      let rest = fresh (s.visited ++ id ∷ []) ids in
      rw new (
        visit_lem ids (visit_one id s)
        ∙ rw (
          append_assoc s.queue (id ∷ []) rest,
          append_assoc s.visited (id ∷ []) rest,
          append_assoc s.indirect (id ∷ []) rest,
        ))
]

pub Mem_of_fresh :
    (visited ids : List String) {x : String} → Memᴰ x (fresh visited ids) → Memᴰ x ids
unfolding fresh
Mem_of_fresh visited [] m = elim m [ ]
Mem_of_fresh visited (id ∷ ids) {x} m = elim (Bool-cases (includes visited id)) [
  | inl seen ↦ tail (Mem_of_fresh visited ids (rw seen at m))
  | inr new ↦ taken (Mem_of_fresh (visited ++ id ∷ []) ids) (rw new at m)
]
  where
    taken :
        (Memᴰ x (fresh (visited ++ id ∷ []) ids) → Memᴰ x ids)
        → Memᴰ x (id ∷ fresh (visited ++ id ∷ []) ids)
        → Memᴰ x (id ∷ ids)
    taken ih (head e) = head e
    taken ih (tail n) = tail (ih n)

pub Mem-fresh :
    (visited ids : List String) {x : String} → Memᴰ x ids → Memᴰ x (visited ++ fresh visited ids)
unfolding fresh
Mem-fresh visited [] m = elim m [ ]
Mem-fresh visited (id ∷ ids) {x} (head e) = elim (Bool-cases (includes visited id)) [
  | inl seen ↦ rw seen (
      subst (λ z. Memᴰ z (visited ++ fresh visited ids)) (sym e)
        (Mem-append_left (fresh visited ids) (Mem_of_includes id visited seen)))
  | inr new ↦ rw new (Mem-append_right visited (head e))
]
Mem-fresh visited (id ∷ ids) {x} (tail n) = elim (Bool-cases (includes visited id)) [
  | inl seen ↦ rw seen (Mem-fresh visited ids n)
  | inr new ↦ rw new (
      subst (λ z. Memᴰ x z) (append_assoc visited (id ∷ []) (fresh (visited ++ id ∷ []) ids))
        (Mem-fresh (visited ++ id ∷ []) ids n))
]

includes-push :
    (visited : List String) (id y : String)
    → includes (visited ++ id ∷ []) y ≡ includes visited y || id == y
includes-push [] id y = ground arith
includes-push (v ∷ visited) id y = ground (arith, includes-push visited id y)

abbrev pub unvisited : List ModuleInfo → List String → ℕ
unvisited modules visited =
    count_where (λ (r : ModuleInfo). not (includes visited r.module_id)) modules

unvisited-push :
    (modules : List ModuleInfo) (visited : List String) (id : String)
    → unvisited modules (visited ++ id ∷ []) ≤ unvisited modules visited
unvisited-push [] visited id = ground arith
unvisited-push (r ∷ modules) visited id =
    ground (arith, includes-push visited id r.module_id, unvisited-push modules visited id)

unvisited-less :
    (modules : List ModuleInfo) (visited : List String) (id : String)
    → Memᴰ id (map (λ (r : ModuleInfo). r.module_id) modules)
    → includes visited id ≡ false
    → unvisited modules (visited ++ id ∷ []) + 1 ≤ unvisited modules visited
unvisited-less [] visited id m new = elim m [ ]
unvisited-less (r ∷ modules) visited id (head e) new = ground (
  arith,
  includes-push visited id r.module_id,
  unvisited-push modules visited id,
  eq_iff id r.module_id,
  e,
  ap (includes visited) e,
)
unvisited-less (r ∷ modules) visited id (tail m) new =
    ground (arith, includes-push visited id r.module_id, unvisited-less modules visited id m new)

-- Each new id is the id of a module that was not visited before.
pub unvisited-fresh :
    (modules : List ModuleInfo) (visited ids : List String)
    → ((x : String) → Memᴰ x ids → Memᴰ x (map (λ (r : ModuleInfo). r.module_id) modules))
    → length (fresh visited ids) + unvisited modules (visited ++ fresh visited ids)
      ≤ unvisited modules visited
unfolding fresh
unvisited-fresh modules visited [] known = rw (append-nil visited) (omega arith)
unvisited-fresh modules visited (id ∷ ids) known = elim (Bool-cases (includes visited id)) [
  | inl seen ↦ rw seen (unvisited-fresh modules visited ids (λ x m. known x (tail m)))
  | inr new ↦
      let rest = fresh (visited ++ id ∷ []) ids in
      let ih = unvisited-fresh modules (visited ++ id ∷ []) ids (λ x m. known x (tail m)) in
      let less = unvisited-less modules visited id (known id (head refl)) new in
      rw new (
        subst (λ z. suc (length rest) + unvisited modules z ≤ unvisited modules visited)
          (append_assoc visited (id ∷ []) rest) (omega arith))
]
