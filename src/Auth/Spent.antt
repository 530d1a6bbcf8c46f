-- ===== src/Auth/Spent.antt =====
-- What each step of src/auth does to the rows of refresh_tokens that are already revoked.
pub mod Rotating
pub mod Granting
pub mod Others
use mcp_coordinator.Prelude.{
  ℕ, String, ◌≡◌, refl, sym, ap, ◌∙◌, inl, inr, Bool, true, false, not, ◌&&◌, ◌||◌, Option, none,
  some, List, [], ◌∷◌, ◌==◌, any, All, All-append, is_some, if◌then◌else◌, arith, Bool-cases,
  Option-cases, equals, leb, or_null,
}
use mcp_coordinator.Table.{update_where, insert_row, find_row}
use mcp_coordinator.Auth.State.{
  AuthDb, Claims, Context, RefreshRow, RevokedReason, Fetched, got, token_gone, transient, failed,
  mark, is_live, has_jti, User, Org,
}
use mcp_coordinator.Auth.Steps.{
  Step, Answer, done, reply, thrown, Response, ◌>>=◌, ◌>>◌, pure, respond, throw, gets, modify,
  audit, set_tokens, write_oauth_error,
}

-- Every row that `q` selects is revoked.
abbrev pub Dead : (RefreshRow → Bool) → AuthDb → Type 0
Dead q db = All (λ r. q r ≡ true → is_live r ≡ false) db.tokens

-- A change of a row by which a revoked row stays revoked, and what selects it still does.
abbrev pub Harmless : (RefreshRow → Bool) → (RefreshRow → RefreshRow) → Type 0
Harmless q f = (r : RefreshRow) → (q (f r) ≡ q r) × (is_live r ≡ false → is_live (f r) ≡ false)

-- What selects a row does not look at what the handlers change.
pub record IsBlind (q : RefreshRow → Bool) : Type 0 where
  pub marked : (t : ℕ) (reason : RevokedReason) (r : RefreshRow) → q (mark t reason r) ≡ q r
  pub linked : (p : Option String) (r : RefreshRow) → q (record r { parent_jti = p }) ≡ q r
  pub counted : (n : ℕ) (r : RefreshRow) → q (record r { replay_count = n }) ≡ q r

-- The step revives none of these rows and adds no live one.
abbrev pub Buries : {A : Type 0} → (RefreshRow → Bool) → Step A → Type 0
Buries q m = (db : AuthDb) → Dead q db → Dead q (m db).1

module _ (q : RefreshRow → Bool) where
  pub Dead-update :
      (p : RefreshRow → Bool) (f : RefreshRow → RefreshRow) (xs : List RefreshRow)
      → Harmless q f
      → All (λ r. q r ≡ true → is_live r ≡ false) xs
      → All (λ r. q r ≡ true → is_live r ≡ false) (update_where p f xs)
  Dead-update p f [] h d = tt
  Dead-update p f (x ∷ xs) h d = (row (p x), Dead-update p f xs h d.1)
    where
      row : (b : Bool) → q (if b then f x else x) ≡ true → is_live (if b then f x else x) ≡ false
      row true e = (h x).1 (d.0 (sym (h x).0 ∙ e))
      row false e = d.0 e

  pub Buries-set_tokens :
      (p : RefreshRow → Bool) (f : RefreshRow → RefreshRow)
      → Harmless q f
      → Buries q (modify (set_tokens p f))
  Buries-set_tokens p f h db d = Dead-update p f db.tokens h d

  pub Buries-bind :
      {A B : Type 0} (m : Step A) (f : A → Step B)
      → Buries q m
      → ((a : A) → Buries q (f a))
      → Buries q (m >>= f)
  Buries-bind {A} {B} m f hm hf db d = next (m db) (hm db d)
    where
      next :
          (r : Answer A × AuthDb)
          → Dead q r.1
          → Dead q
              (let (a, db') = r in
                let out : Answer B × AuthDb = elim a [
                  | done a ↦ f a db'
                  | reply w ↦ (reply w, db')
                  | thrown ↦ (thrown, db')
                ] in
                out).1
      next (done a, db') k = hf a db' k
      next (reply w, db') k = k
      next (thrown, db') k = k

  pub Buries-then :
      {B : Type 0} (m : Step (Unit {0})) (k : Step B) → Buries q m → Buries q k → Buries q (m >> k)
  Buries-then m k hm hk = Buries-bind m (λ u. k) hm (λ u. hk)
