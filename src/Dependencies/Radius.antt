-- ===== src/Dependencies/Radius.antt =====
-- What getBlastRadius finds, against dependency through declarations.
use mathlib.Core.List.{append_assoc}
use mcp_coordinator.Prelude.{
  ℕ, suc, zero, ◌+◌, ◌≤◌, ◌≡◌, ◌↔◌, ◌≢◌, refl, subst, inl, inr, ◌⊎◌, String, List, [], ◌∷◌, ◌++◌,
  map, ◌==◌, select, length, Memᴰ, head, tail, arith, Mem-append_left, Mem-append_right,
  Mem_of_append, length-append,
}
use mcp_coordinator.Dependencies.{
  ModuleInfo, Search, visit, search, started, enough_fuel, dependents_of, declared, get_map,
  get_blast_radius,
}
use mcp_coordinator.Dependencies.Fresh.{
  fresh, visit_lem, Mem_of_fresh, Mem-fresh, unvisited, unvisited-fresh,
}

-- `x` depends on `id` through one or more declarations.
pub data Depends (modules : List ModuleInfo) (id : String) : String → Type 0 where
  directly : {x : String} → Memᴰ x (dependents_of id modules) → Depends modules id x
  through :
      {y x : String}
      → Depends modules id y
      → Memᴰ x (dependents_of y modules)
      → Depends modules id x

module_ids : List ModuleInfo → List String
module_ids = map (λ (r : ModuleInfo). r.module_id)

declared-known :
    (id : String) (row : ModuleInfo) (deps : List String) {x : String}
    → Memᴰ x (map (λ (_ : String). row.module_id) deps)
    → x ≡ row.module_id
declared-known id row [] m = elim m [ ]
declared-known id row (d ∷ deps) (head e) = e
declared-known id row (d ∷ deps) (tail m) = declared-known id row deps m

dependents-known :
    (id : String) (modules : List ModuleInfo) (x : String)
    → Memᴰ x (dependents_of id modules)
    → Memᴰ x (map (λ (r : ModuleInfo). r.module_id) modules)
dependents-known id [] x m = elim m [ ]
dependents-known id (r ∷ modules) x m = elim (Mem_of_append (declared id r) m) [
  | inl here ↦ head (declared-known id r (select (λ d. d == id) r.depends_on) here)
  | inr there ↦ tail (dependents-known id modules x there)
]

module _ (modules : List ModuleInfo) (id : String) where
  -- What holds of the lists each time the loop is entered.
  record Searching (s : Search) : Type 0 where
    queued : (x : String) → Memᴰ x s.queue → Depends modules id x
    found : (x : String) → Memᴰ x s.indirect → Depends modules id x
    listed :
        (x : String) → Memᴰ x s.visited → (x ≡ id) ⊎ Memᴰ x (dependents_of id modules ++ s.indirect)
    origin : Memᴰ id s.visited
    closed :
        (x : String)
        → Memᴰ x s.visited
        → Memᴰ x s.queue ⊎ ((y : String) → Memᴰ y (dependents_of x modules) → Memᴰ y s.visited)

  started-Searching : Searching (started id modules)
  started-Searching = record {
    queued = λ x m. directly m;
    found = λ x m. elim m [ ];
    listed = listed_at_start;
    origin = head refl;
    closed = closed_at_start;
  }
    where
      listed_at_start :
          (x : String)
          → Memᴰ x (id ∷ dependents_of id modules)
          → (x ≡ id) ⊎ Memᴰ x (dependents_of id modules ++ [])
      listed_at_start x (head e) = inl e
      listed_at_start x (tail m) = inr (Mem-append_left [] m)

      closed_at_start :
          (x : String)
          → Memᴰ x (id ∷ dependents_of id modules)
          → Memᴰ x (dependents_of id modules)
            ⊎ ((y : String)
                → Memᴰ y (dependents_of x modules)
                → Memᴰ y (id ∷ dependents_of id modules))
      closed_at_start x (head e) =
          inr λ y m. tail (subst (λ z. Memᴰ y (dependents_of z modules)) e m)
      closed_at_start x (tail m) = inl m

  -- One turn of the loop.
  turn-Searching :
      (current : String) (queue visited indirect : List String)
      → Searching (record { queue = current ∷ queue; visited = visited; indirect = indirect })
      → Searching (
          visit
            (dependents_of current modules)
            (record { queue = queue; visited = visited; indirect = indirect }))
  turn-Searching current queue visited indirect s =
      let deps = dependents_of current modules in
      let new = fresh visited deps in
      let reaches : (x : String) → Memᴰ x new → Depends modules id x =
        λ x m. through (s.queued current (head refl)) (Mem_of_fresh visited deps m) in
      let all_seen : (y : String) → Memᴰ y deps → Memᴰ y (visited ++ new) =
        λ y m. Mem-fresh visited deps m in
      rw (visit_lem deps (record { queue = queue; visited = visited; indirect = indirect }))
        (record {
          queued = λ x m. elim (Mem_of_append queue m) [
            | inl old ↦ s.queued x (tail old)
            | inr n ↦ reaches x n
          ];
          found = λ x m. elim (Mem_of_append indirect m) [
            | inl old ↦ s.found x old
            | inr n ↦ reaches x n
          ];
          listed = λ x m. elim (Mem_of_append visited m) [
            | inl old ↦ elim (s.listed x old) [
              | inl e ↦ inl e
              | inr l ↦ inr (
                  subst (λ z. Memᴰ x z) (append_assoc (dependents_of id modules) indirect new)
                    (Mem-append_left new l))
            ]
            | inr n ↦
                inr (Mem-append_right (dependents_of id modules) (Mem-append_right indirect n))
          ];
          origin = Mem-append_left new s.origin;
          closed = λ x m. elim (Mem_of_append visited m) [
            | inl old ↦ elim (s.closed x old) [
              | inl q ↦ popped x q all_seen
              | inr c ↦ inr λ y d. Mem-append_left new (c y d)
            ]
            | inr n ↦ inl (Mem-append_right queue n)
          ];
        })
    where
      popped :
          (x : String)
          → Memᴰ x (current ∷ queue)
          → ((y : String)
              → Memᴰ y (dependents_of current modules)
              → Memᴰ y (visited ++ fresh visited (dependents_of current modules)))
          → Memᴰ x (queue ++ fresh visited (dependents_of current modules))
            ⊎ ((y : String)
                → Memᴰ y (dependents_of x modules)
                → Memᴰ y (visited ++ fresh visited (dependents_of current modules)))
      popped x (head e) all_seen =
          inr λ y d. all_seen y (subst (λ z. Memᴰ y (dependents_of z modules)) e d)
      popped x (tail q) all_seen =
          inl (Mem-append_left (fresh visited (dependents_of current modules)) q)

  left : Search → ℕ
  left s = length s.queue + unvisited modules s.visited

  -- Each turn takes one entry off, and adds only modules that were not visited.
  turn-left :
      (current : String) (queue visited indirect : List String)
      → left (
            visit
              (dependents_of current modules)
              (record { queue = queue; visited = visited; indirect = indirect }))
          + 1
        ≤ left (record { queue = current ∷ queue; visited = visited; indirect = indirect })
  unfolding left
  turn-left current queue visited indirect =
      let deps = dependents_of current modules in
      let fewer = unvisited-fresh modules visited deps (dependents-known current modules) in
      rw
        (
          visit_lem deps (record { queue = queue; visited = visited; indirect = indirect }),
          length-append queue (fresh visited deps),
        )
        (omega arith)

  search-Searching :
      (fuel : ℕ) (q v i : List String)
      → let s : Search = record { queue = q; visited = v; indirect = i } in
        Searching s
        → left s ≤ fuel
        → Searching (search fuel modules s) × ((search fuel modules s).queue ≡ [])
  unfolding search left
  search-Searching zero [] v i h enough = (h, refl)
  search-Searching zero (c ∷ q) v i h enough = absurd (omega arith)
  search-Searching (suc fuel) [] v i h enough = (h, refl)
  search-Searching (suc fuel) (c ∷ q) v i h enough =
      let less = turn-left c q v i in
      let next =
        visit (dependents_of c modules) (record { queue = q; visited = v; indirect = i }) in
      search-Searching fuel next.queue next.visited next.indirect (turn-Searching c q v i h)
        (omega arith)

  drained : Search
  drained = search (enough_fuel id modules) modules (started id modules)

  unvisited-bound :
      (rows : List ModuleInfo) (visited : List String) → unvisited rows visited ≤ length rows
  unvisited-bound [] visited = omega arith
  unvisited-bound (r ∷ rows) visited = ground (arith, unvisited-bound rows visited)

  drained-Searching : Searching drained × (drained.queue ≡ [])
  unfolding drained left
  drained-Searching =
      let bound = unvisited-bound modules (id ∷ dependents_of id modules) in
      search-Searching (enough_fuel id modules) (dependents_of id modules)
        (id ∷ dependents_of id modules) [] started-Searching (omega arith)

  no_queue : {x : String} → ¬ Memᴰ x drained.queue
  no_queue {x} m = elim (subst (λ q. Memᴰ x q) drained-Searching.1 m) [ ]

  visited-closed :
      (x y : String)
      → Memᴰ x drained.visited
      → Memᴰ y (dependents_of x modules)
      → Memᴰ y drained.visited
  visited-closed x y m d = elim (drained-Searching.0.closed x m) [
    | inl q ↦ absurd (no_queue q)
    | inr c ↦ c y d
  ]

  Depends-visited : {x : String} → Depends modules id x → Memᴰ x drained.visited
  Depends-visited (directly m) = visited-closed id _ drained-Searching.0.origin m
  Depends-visited (through d m) = visited-closed _ _ (Depends-visited d) m

  -- Reported dependents depend on the module.
  radius_sound :
      (x : String) → Memᴰ x (dependents_of id modules ++ drained.indirect) → Depends modules id x
  radius_sound x m = elim (Mem_of_append (dependents_of id modules) m) [
    | inl d ↦ directly d
    | inr i ↦ drained-Searching.0.found x i
  ]

  radius_complete :
      (x : String)
      → Depends modules id x
      → (x ≡ id) ⊎ Memᴰ x (dependents_of id modules ++ drained.indirect)
  radius_complete x d = drained-Searching.0.listed x (Depends-visited d)

-- getBlastRadius reports a module, other than the one that it is asked about, if and only if that
-- module depends on it, directly or through other modules of the organisation.
pub blast_radius_exact :
    (org id : String) (rows : List ModuleInfo) (x : String)
    → x ≢ id
    → Memᴰ x (
        (get_blast_radius org id rows).direct_dependents
        ++ (get_blast_radius org id rows).indirect_dependents)
      ↔ Depends (get_map org rows) id x
unfolding get_blast_radius drained
blast_radius_exact org id rows x other = (
  radius_sound (get_map org rows) id x,
  λ d. elim (radius_complete (get_map org rows) id x d) [ inl e ↦ absurd (other e) | inr m ↦ m ],
)
