-- ===== src/Prelude/Lists.antt =====
-- Lists under Boolean tests, and predicates on all the items of a list.
use Prim.Native.Nat.{ℕ, ◌+◌, suc}
use Prim.Native.String.{String}
use mathlib.Core.Path.{◌≡◌, refl, sym, ap, ◌∙◌, subst}
use mathlib.Core.Logic.{◌⊎◌, inl, inr}
use mathlib.Core.Bool.{Bool, true, false, not, ◌&&◌, ◌||◌}
use mathlib.Core.List.{List, [], ◌∷◌, ◌++◌, map, Memᴰ}
use mathlib.Core.List.Memᴰ.{head, tail}
use native.Mathlib.Omega.{arith}
use text.Mathlib.Text.{◌==◌}
use mcp_coordinator.Prelude.Tests.{if◌then◌else◌, Bool-cases}

module _ {ℓ} {A : Type ℓ} where
  abbrev pub length : List A → ℕ
  length [] = 0
  length (x ∷ xs) = suc (length xs)

  -- `xs.filter(p)` of the source, and the rows that a WHERE clause selects.
  abbrev pub select : (A → Bool) → List A → List A
  select p [] = []
  select p (x ∷ xs) = let rest = select p xs in if p x then x ∷ rest else rest

  -- `xs.some(p)`
  abbrev pub any : (A → Bool) → List A → Bool
  any p [] = false
  any p (x ∷ xs) = p x || any p xs

  -- `xs.every(p)`
  abbrev pub all : (A → Bool) → List A → Bool
  all p [] = true
  all p (x ∷ xs) = p x && all p xs

  abbrev pub is_empty : List A → Bool
  is_empty [] = true
  is_empty (x ∷ xs) = false

  abbrev pub All {κ} : (A → Type κ) → List A → Type κ
  All P [] = Unit
  All P (x ∷ xs) = P x × All P xs

-- A loop that pushes a list of results for each item.
abbrev pub flat_map {ℓ κ} : {A : Type ℓ} {B : Type κ} → (A → List B) → List A → List B
flat_map f [] = []
flat_map f (x ∷ xs) = f x ++ flat_map f xs

module _ {ℓ} {A : Type ℓ} (p : A → Bool) where
  pub any-append : (xs ys : List A) → any p (xs ++ ys) ≡ any p xs || any p ys
  any-append [] ys = refl
  any-append (x ∷ xs) ys = ground (arith, any-append xs ys)

  pub any-select : (q : A → Bool) (xs : List A) → any p (select q xs) ≡ any (λ x. q x && p x) xs
  any-select q [] = refl
  any-select q (x ∷ xs) = ground (arith, any-select q xs)

  pub any-flat_map {κ} :
      {B : Type κ} (f : B → List A) (xs : List B)
      → any p (flat_map f xs) ≡ any (λ x. any p (f x)) xs
  any-flat_map f [] = refl
  any-flat_map f (x ∷ xs) =
      any-append (f x) (flat_map f xs) ∙ ap (λ b. any p (f x) || b) (any-flat_map f xs)

  pub any-map {κ} :
      {B : Type κ} (f : B → A) (xs : List B) → any p (map f xs) ≡ any (λ x. p (f x)) xs
  any-map f [] = refl
  any-map f (x ∷ xs) = ap (λ b. p (f x) || b) (any-map f xs)

  pub any_none : (xs : List A) → ((x : A) → p x ≡ false) → any p xs ≡ false
  any_none [] h = refl
  any_none (x ∷ xs) h = rw (h x) (any_none xs h)

  -- Dropping the items with `q`, where those that matter all have it or all lack it.
  pub any_excluding :
      (q : A → Bool) (b : Bool) (xs : List A)
      → ((x : A) → p x ≡ true → q x ≡ b)
      → any (λ x. not (q x) && p x) xs ≡ any p xs && not b
  any_excluding q b [] h = refl
  any_excluding q b (x ∷ xs) h = elim (Bool-cases (p x)) [
    | inl e ↦ ground (arith, h x e, any_excluding q b xs h)
    | inr e ↦ ground (arith, any_excluding q b xs h)
  ]

  pub any_same : (q : A → Bool) (xs : List A) → ((x : A) → p x ≡ q x) → any p xs ≡ any q xs
  any_same q [] h = refl
  any_same q (x ∷ xs) h = rw (h x, any_same q xs h)

pub length-append {ℓ} : {A : Type ℓ} (xs ys : List A) → length (xs ++ ys) ≡ length xs + length ys
length-append [] ys = omega arith
length-append (x ∷ xs) ys = ground (arith, length-append xs ys)

module _ {ℓ κ} {A : Type ℓ} (P : A → Type κ) where
  pub All-append : (xs ys : List A) → All P xs → All P ys → All P (xs ++ ys)
  All-append [] ys hx hy = hy
  All-append (x ∷ xs) ys hx hy = (hx.0, All-append xs ys hx.1 hy)

  pub All-Mem : {a : A} {xs : List A} → All P xs → Memᴰ a xs → P a
  All-Mem h (head e) = subst P (sym e) h.0
  All-Mem h (tail m) = All-Mem h.1 m

  pub All-of_Mem : (xs : List A) → ((a : A) → Memᴰ a xs → P a) → All P xs
  All-of_Mem [] h = tt
  All-of_Mem (x ∷ xs) h = (h x (head refl), All-of_Mem xs (λ a m. h a (tail m)))

module _ {ℓ} {A : Type ℓ} {a : A} where
  pub Mem-append_left : {xs : List A} (ys : List A) → Memᴰ a xs → Memᴰ a (xs ++ ys)
  Mem-append_left ys (head e) = head e
  Mem-append_left ys (tail m) = tail (Mem-append_left ys m)

  pub Mem-append_right : (xs : List A) {ys : List A} → Memᴰ a ys → Memᴰ a (xs ++ ys)
  Mem-append_right [] m = m
  Mem-append_right (x ∷ xs) m = tail (Mem-append_right xs m)

  pub Mem_of_append : (xs : List A) {ys : List A} → Memᴰ a (xs ++ ys) → Memᴰ a xs ⊎ Memᴰ a ys
  Mem_of_append [] m = inr m
  Mem_of_append (x ∷ xs) (head e) = inl (head e)
  Mem_of_append (x ∷ xs) (tail m) = elim (Mem_of_append xs m) [
    | inl l ↦ inl (tail l)
    | inr r ↦ inr r
  ]

module _ {ℓ} {A : Type ℓ} (p : A → Bool) where
  pub Mem_of_select : {a : A} (xs : List A) → Memᴰ a (select p xs) → Memᴰ a xs × (p a ≡ true)
  Mem_of_select [] m = elim m [ ]
  Mem_of_select {a} (x ∷ xs) m = elim (Bool-cases (p x)) [
    | inl hit ↦ taken hit (rw hit at m) (Mem_of_select xs)
    | inr miss ↦ let (older, e) = Mem_of_select xs (rw miss at m) in (tail older, e)
  ]
    where
      taken :
          p x ≡ true
          → Memᴰ a (x ∷ select p xs)
          → (Memᴰ a (select p xs) → Memᴰ a xs × (p a ≡ true))
          → Memᴰ a (x ∷ xs) × (p a ≡ true)
      taken hit (head e) ih = (head e, ap p e ∙ hit)
      taken hit (tail n) ih = let (older, e) = ih n in (tail older, e)

  pub Mem-select : {a : A} {xs : List A} → Memᴰ a xs → p a ≡ true → Memᴰ a (select p xs)
  Mem-select {a} (head {x = x} {xs = xs} h) e = rw (ap p (sym h) ∙ e) (head h)
  Mem-select {a} (tail {x = x} {xs = xs} m) e = elim (Bool-cases (p x)) [
    | inl hit ↦ rw hit (tail (Mem-select m e))
    | inr miss ↦ rw miss (Mem-select m e)
  ]

  pub any_of_Mem : {a : A} {xs : List A} → Memᴰ a xs → p a ≡ true → any p xs ≡ true
  any_of_Mem (head h) e = rw (ap p (sym h) ∙ e)
  any_of_Mem (tail {x = x} {xs = xs} m) e = ground (arith, any_of_Mem m e)

  pub any_witness : (xs : List A) → any p xs ≡ true → (a : A) × Memᴰ a xs × (p a ≡ true)
  any_witness [] h = absurd (cc)
  any_witness (x ∷ xs) h = elim (Bool-cases (p x)) [
    | inl hit ↦ (x, head refl, hit)
    | inr miss ↦ let (a, m, e) = any_witness xs (rw miss at h) in (a, tail m, e)
  ]

  pub all-Mem : {a : A} {xs : List A} → all p xs ≡ true → Memᴰ a xs → p a ≡ true
  all-Mem h (head {x = x} {xs = xs} e) = ap p e ∙ ground arith
  all-Mem h (tail {x = x} {xs = xs} m) = all-Mem (ground arith) m

  pub all_of_Mem : (xs : List A) → ((a : A) → Memᴰ a xs → p a ≡ true) → all p xs ≡ true
  all_of_Mem [] h = refl
  all_of_Mem (x ∷ xs) h = rw (h x (head refl)) (all_of_Mem xs (λ a m. h a (tail m)))

-- `xs.includes(s)`
abbrev pub includes : List String → String → Bool
includes xs s = any (λ x. x == s) xs
