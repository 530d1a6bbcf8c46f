-- ===== src/Table/Evolves.antt =====
-- What a sequence of statements does to a table: every old row `x` becomes a row `y` with `R x y`,
-- and every row that is added satisfies `N`. Rows are never deleted from these tables.
use mcp_coordinator.Prelude.{
  ◌≡◌, refl, Bool, true, false, List, [], ◌∷◌, if◌then◌else◌, All, Memᴰ, head, tail,
}
use mcp_coordinator.Table.{update_where, insert_row}

abbrev pub Evolves {ℓ} : {A : Type ℓ} → (A → A → Type 0) → (A → Type 0) → List A → List A → Type 0
Evolves R N [] ys = All N ys
Evolves R N (x ∷ xs) [] = ⊥
Evolves R N (x ∷ xs) (y ∷ ys) = R x y × Evolves R N xs ys

module _ {ℓ} {A : Type ℓ} (R : A → A → Type 0) (N : A → Type 0) (R-refl : (x : A) → R x x) where
  pub Evolves-refl : (xs : List A) → Evolves R N xs xs
  Evolves-refl [] = tt
  Evolves-refl (x ∷ xs) = (R-refl x, Evolves-refl xs)

  pub Evolves-insert : (a : A) (xs : List A) → N a → Evolves R N xs (insert_row a xs)
  Evolves-insert a [] n = (n, tt)
  Evolves-insert a (x ∷ xs) n = (R-refl x, Evolves-insert a xs n)

  pub Evolves-update :
      (p : A → Bool) (f : A → A) (xs : List A)
      → ((x : A) → Memᴰ x xs → p x ≡ true → R x (f x))
      → Evolves R N xs (update_where p f xs)
  Evolves-update p f [] h = tt
  Evolves-update p f (x ∷ xs) h =
      (row (p x) (h x (head refl)), Evolves-update p f xs (λ y m. h y (tail m)))
    where
      row : (b : Bool) → (b ≡ true → R x (f x)) → R x (if b then f x else x)
      row true step = step refl
      row false step = R-refl x

module _ {ℓ} {A : Type ℓ} (R : A → A → Type 0) (N : A → Type 0) where
  -- `R` carries the property of new rows along.
  pub All-Evolves :
      (xs ys : List A) (P : A → Type 0)
      → ((x y : A) → R x y → P x → P y)
      → ((y : A) → N y → P y)
      → All P xs
      → Evolves R N xs ys
      → All P ys
  All-Evolves [] [] P step new h e = tt
  All-Evolves [] (y ∷ ys) P step new h e = (new y e.0, All-Evolves [] ys P step new tt e.1)
  All-Evolves (x ∷ xs) [] P step new h e = absurd e
  All-Evolves (x ∷ xs) (y ∷ ys) P step new h e =
      (step x y e.0 h.0, All-Evolves xs ys P step new h.1 e.1)

  pub Evolves-trans :
      (xs ys zs : List A)
      → ((x y z : A) → R x y → R y z → R x z)
      → ((y z : A) → N y → R y z → N z)
      → Evolves R N xs ys
      → Evolves R N ys zs
      → Evolves R N xs zs
  Evolves-trans [] ys zs compose keep e f =
      All-Evolves ys zs N (λ y z r n. keep y z n r) (λ y n. n) e f
  Evolves-trans (x ∷ xs) [] zs compose keep e f = absurd e
  Evolves-trans (x ∷ xs) (y ∷ ys) [] compose keep e f = absurd f
  Evolves-trans (x ∷ xs) (y ∷ ys) (z ∷ zs) compose keep e f =
      (compose x y z e.0 f.0, Evolves-trans xs ys zs compose keep e.1 f.1)

-- A weaker relation holds where a stronger one does.
pub Evolves-mono {ℓ} :
    {A : Type ℓ} (R : A → A → Type 0) (N : A → Type 0) (S : A → A → Type 0) (M : A → Type 0)
    (xs ys : List A)
    → ((x y : A) → R x y → S x y)
    → ((y : A) → N y → M y)
    → Evolves R N xs ys
    → Evolves S M xs ys
Evolves-mono R N S M [] [] s m e = tt
Evolves-mono R N S M [] (y ∷ ys) s m e = (m y e.0, Evolves-mono R N S M [] ys s m e.1)
Evolves-mono R N S M (x ∷ xs) [] s m e = e
Evolves-mono R N S M (x ∷ xs) (y ∷ ys) s m e = (s x y e.0, Evolves-mono R N S M xs ys s m e.1)
