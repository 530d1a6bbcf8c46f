-- ===== src/Table.antt =====
-- The SQL that the program runs on one table, over a list of rows in insertion order: a SELECT of
-- one row, an UPDATE with its WHERE clause, and an INSERT.
pub mod Evolves
use mcp_coordinator.Prelude.{
  ℕ, suc, ◌≡◌, ◌≢◌, refl, sym, ap, ◌∙◌, inl, inr, Bool, true, false, Option, none, some, List, [],
  ◌∷◌, ◌++◌, arith, if◌then◌else◌, any, Bool-cases, head, tail, Memᴰ,
}

module _ {ℓ} {A : Type ℓ} where
  -- db.prepare("SELECT * … WHERE p").get()
  abbrev pub find_row : (A → Bool) → List A → Option A
  find_row p [] = none
  find_row p (x ∷ xs) = let rest = find_row p xs in if p x then some x else rest

  -- db.prepare("UPDATE … SET f WHERE p").run()
  abbrev pub update_where : (A → Bool) → (A → A) → List A → List A
  update_where p f [] = []
  update_where p f (x ∷ xs) = (if p x then f x else x) ∷ update_where p f xs

  -- `changes` of that run
  abbrev pub count_where : (A → Bool) → List A → ℕ
  count_where p [] = 0
  count_where p (x ∷ xs) = let rest = count_where p xs in if p x then suc rest else rest

  -- db.prepare("INSERT …").run()
  abbrev pub insert_row : A → List A → List A
  insert_row a xs = xs ++ a ∷ []

  pub find_row-Mem :
      (p : A → Bool) (xs : List A) {t : A} → find_row p xs ≡ some t → Memᴰ t xs × (p t ≡ true)
  find_row-Mem p [] h = absurd (cc)
  find_row-Mem p (x ∷ xs) {t} h = elim (Bool-cases (p x)) [
    | inl hit ↦ let e : x ≡ t = ground arith in (head (sym e), ap p (sym e) ∙ hit)
    | inr miss ↦ let (m, e) = find_row-Mem p xs (rw miss at h) in (tail m, e)
  ]

  pub find_row_total :
      (p : A → Bool) {a : A} {xs : List A}
      → Memᴰ a xs
      → p a ≡ true
      → (t : A) × (find_row p xs ≡ some t)
  find_row_total p (head {x = x} {xs = xs} h) e = (x, rw (ap p (sym h) ∙ e))
  find_row_total p (tail {x = x} {xs = xs} m) e = elim (Bool-cases (p x)) [
    | inl hit ↦ (x, rw hit)
    | inr miss ↦ let (t, f) = find_row_total p m e in (t, rw miss f)
  ]

  -- The row found after an update, where the update keeps what the search looks for.
  pub find_row-update_where :
      (q p : A → Bool) (f : A → A) (xs : List A)
      → ((x : A) → q (f x) ≡ q x)
      → find_row q (update_where p f xs)
        ≡ elim (find_row q xs) [ none ↦ none | some t ↦ some (if p t then f t else t) ]
  find_row-update_where q p f [] same = refl
  find_row-update_where q p f (x ∷ xs) same =
      ground (arith, same x, find_row-update_where q p f xs same)

  pub find_row-insert_row :
      (q : A → Bool) (a : A) (xs : List A)
      → find_row q (insert_row a xs)
        ≡ elim (find_row q xs) [ none ↦ if q a then some a else none | some t ↦ some t ]
  find_row-insert_row q a [] = refl
  find_row-insert_row q a (x ∷ xs) = ground (arith, find_row-insert_row q a xs)

  pub find_row-none : (q : A → Bool) (xs : List A) → any q xs ≡ false → find_row q xs ≡ none
  find_row-none q [] h = refl
  find_row-none q (x ∷ xs) h = ground (arith, find_row-none q xs)

  pub Mem-update_where :
      (p : A → Bool) (f : A → A) {a : A} {xs : List A}
      → Memᴰ a xs
      → Memᴰ (if p a then f a else a) (update_where p f xs)
  Mem-update_where p f (head {x = x} {xs = xs} e) = head (ap (λ a. if p a then f a else a) e)
  Mem-update_where p f (tail m) = tail (Mem-update_where p f m)

  pub Mem_of_update_where :
      (p : A → Bool) (f : A → A) {b : A} (xs : List A)
      → Memᴰ b (update_where p f xs)
      → (a : A) × Memᴰ a xs × (b ≡ (if p a then f a else a))
  Mem_of_update_where p f [] m = elim m [ ]
  Mem_of_update_where p f (x ∷ xs) (head e) = (x, head refl, e)
  Mem_of_update_where p f (x ∷ xs) (tail m) =
      let (a, n, e) = Mem_of_update_where p f xs m in (a, tail n, e)
