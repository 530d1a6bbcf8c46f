-- ===== src/Auth/Steps.antt =====
-- The numbered steps of a handler: each ends with a value for the next step, or with the response
-- that it wrote, or throws. What was written before stays. A helper's StepResult is an Answer.
use mcp_coordinator.Prelude.{ℕ, String, Bool, false}
use mcp_coordinator.Auth.State.{AuthDb, Audit, RefreshRow}
use mcp_coordinator.Table.{insert_row, update_where}

pub data Response : Type 0 where
  -- status, error, description, and whether a WWW-Authenticate header goes with it
  oauth_error : ℕ → String → String → Bool → Response
  token_pair : String → String → Response
  -- a status with no body
  empty : ℕ → Response
  -- a status, with the code and the text of appError
  app_error : ℕ → String → String → Response
  -- 429 with Retry-After, and the text of RATE_LIMITED
  rate_limited : ℕ → String → Response

pub data Answer (A : Type 0) : Type 0 where
  done : A → Answer A
  reply : Response → Answer A
  thrown : Answer A

abbrev pub Step : Type 0 → Type 0
Step A = AuthDb → Answer A × AuthDb

infixl 5 ◌>>=◌ ◌>>◌
abbrev pub ◌>>=◌ : {A B : Type 0} → Step A → (A → Step B) → Step B
◌>>=◌ m f db =
    let (r, db') = m db in
    elim r [ done a ↦ f a db' | reply w ↦ (reply w, db') | thrown ↦ (thrown, db') ]

abbrev pub ◌>>◌ : {B : Type 0} → Step (Unit {0}) → Step B → Step B
m >> k = m >>= λ _. k

abbrev pub pure : {A : Type 0} → A → Step A
pure a db = (done a, db)

abbrev pub respond : {A : Type 0} → Response → Step A
respond w db = (reply w, db)

abbrev pub throw : {A : Type 0} → Step A
throw db = (thrown, db)

abbrev pub gets : {A : Type 0} → (AuthDb → A) → Step A
gets f db = (done (f db), db)

abbrev pub modify : (AuthDb → AuthDb) → Step (Unit {0})
modify f db = (done tt, f db)

-- writeOAuthError(res, error, description, status)
abbrev pub write_oauth_error : {A : Type 0} → String → String → ℕ → Step A
write_oauth_error error description status = respond (oauth_error status error description false)

abbrev pub audit : Audit → Step (Unit {0})
audit e = modify λ db. record db { audits = insert_row e db.audits }

-- UPDATE refresh_tokens SET f WHERE p
abbrev pub set_tokens : (RefreshRow → Bool) → (RefreshRow → RefreshRow) → AuthDb → AuthDb
set_tokens p f db = record db { tokens = update_where p f db.tokens }
