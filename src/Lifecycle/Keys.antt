-- ===== src/Lifecycle/Keys.antt =====
-- The primary key of the threads table: an id names at most one row.
use mathlib.Core.List.{map-append}
use mcp_coordinator.Prelude.{
  ◌≡◌, refl, sym, ap, ◌∙◌, String, Bool, true, false, ◌||◌, List, [], ◌∷◌, map, some, ◌==◌, eq_iff,
  any, All, All-append, arith, Memᴰ, head, tail,
}
use mcp_coordinator.Table.{find_row, update_where, insert_row, find_row-Mem}
use mcp_coordinator.Store.{Thread, keyed}

abbrev pub ids : List Thread → List String
ids = map (λ (t : Thread). t.id)

-- No text stands twice in the list.
abbrev pub Distinct : List String → Type 0
Distinct [] = Unit
Distinct (k ∷ ks) = All (λ j. (j == k) ≡ false) ks × Distinct ks

abbrev pub IsKeyed : List Thread → Type 0
IsKeyed ts = Distinct (ids ts)

pub ids-update_where :
    (p : Thread → Bool) (f : Thread → Thread) (ts : List Thread)
    → ((t : Thread) → (f t).id ≡ t.id)
    → ids (update_where p f ts) ≡ ids ts
ids-update_where p f [] same = refl
ids-update_where p f (t ∷ ts) same = ground (arith, same t, ids-update_where p f ts same)

-- An INSERT whose primary key is not taken keeps the keys distinct.
pub IsKeyed-insert :
    (t : Thread) (ts : List Thread)
    → any (λ (u : Thread). u.id == t.id) ts ≡ false
    → IsKeyed ts
    → IsKeyed (insert_row t ts)
IsKeyed-insert t [] fresh k = (tt, tt)
IsKeyed-insert t (u ∷ ts) fresh k =
    (All-ids-insert k.0 (apart fresh), IsKeyed-insert t ts (rest fresh) k.1)
  where
    All-ids-insert :
        All (λ j. (j == u.id) ≡ false) (ids ts)
        → (t.id == u.id) ≡ false
        → All (λ j. (j == u.id) ≡ false) (ids (insert_row t ts))
    All-ids-insert h e =
        rw (map-append (λ (v : Thread). v.id) ts (t ∷ []))
          (All-append _ (ids ts) (t.id ∷ []) h (e, tt))

    apart :
        ((u.id == t.id) || any (λ (v : Thread). v.id == t.id) ts) ≡ false → (t.id == u.id) ≡ false
    apart h = ground (arith, eq_iff u.id t.id, eq_iff t.id u.id)

    rest :
        ((u.id == t.id) || any (λ (v : Thread). v.id == t.id) ts) ≡ false
        → any (λ (v : Thread). v.id == t.id) ts ≡ false
    rest h = ground arith

All-ids :
    (k : String) {t : Thread} {ts : List Thread}
    → All (λ j. (j == k) ≡ false) (ids ts)
    → Memᴰ t ts
    → (t.id == k) ≡ false
All-ids k h (head e) = rw e h.0
All-ids k h (tail m) = All-ids k h.1 m

-- Two rows with one id are one row.
pub IsKeyed-unique :
    {x y : Thread} {ts : List Thread} → IsKeyed ts → Memᴰ x ts → Memᴰ y ts → x.id ≡ y.id → x ≡ y
IsKeyed-unique k (head e) (head f) same = e ∙ sym f
IsKeyed-unique {x = x} {y = y} k (head {x = t} e) (tail n) same =
    absurd (ground (arith, All-ids t.id k.0 n, eq_iff y.id t.id, ap (λ (v : Thread). v.id) e))
IsKeyed-unique {x = x} {y = y} k (tail m) (head {x = t} f) same =
    absurd (ground (arith, All-ids t.id k.0 m, eq_iff x.id t.id, ap (λ (v : Thread). v.id) f))
IsKeyed-unique k (tail m) (tail n) same = IsKeyed-unique k.1 m n same

-- The row that getThread returns is the one that an UPDATE by the same key writes.
pub keyed_unique :
    (org id : String) (ts : List Thread) {t x : Thread}
    → IsKeyed ts
    → find_row (keyed org id) ts ≡ some t
    → Memᴰ x ts
    → keyed org id x ≡ true
    → x ≡ t
keyed_unique org id ts {t} {x} k found m here =
    let (n, there) = find_row-Mem (keyed org id) ts found in
    IsKeyed-unique k m n (ground (arith, eq_iff x.id id, eq_iff t.id id))
