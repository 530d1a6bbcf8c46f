-- ===== src/Consultation/Exec.antt =====
-- A method of Consultation reads and writes the database and may throw. What was written before
-- a throw stays, but for the statements inside db.transaction().
use mcp_coordinator.Prelude.{String, Bool, true, false, none, some, ◌==◌, any, if◌then◌else◌}
use mcp_coordinator.Store.{Db, Thread, ThreadStatus, ThreadMessage, get_thread, is_registered}
use mcp_coordinator.Table.{insert_row}

-- The messages of `throw new Error(…)`; `constraint_failed` is SQLite's own.
pub data Error : Type 0 where
  thread_not_found : String → Error
  thread_is_cancelled : String → Error
  only_initiator_or_claimant : Error
  not_resolving : ThreadStatus → Error
  only_initiator_can_cancel : Error
  only_initiator_may_close : Error
  cannot_close : ThreadStatus → Error
  constraint_failed : Error

pub data Outcome (A : Type 0) : Type 0 where
  ok : A → Outcome A
  err : Error → Outcome A

abbrev pub Exec : Type 0 → Type 0
Exec A = Db → Outcome A × Db

infixl 5 ◌>>=◌ ◌>>◌
abbrev pub ◌>>=◌ : {A B : Type 0} → Exec A → (A → Exec B) → Exec B
◌>>=◌ m f db = let (r, db') = m db in elim r [ ok a ↦ f a db' | err e ↦ (err e, db') ]

abbrev pub ◌>>◌ : {B : Type 0} → Exec (Unit {0}) → Exec B → Exec B
m >> k = m >>= λ _. k

abbrev pub pure : {A : Type 0} → A → Exec A
pure a db = (ok a, db)

abbrev pub throw : {A : Type 0} → Error → Exec A
throw e db = (err e, db)

abbrev pub gets : {A : Type 0} → (Db → A) → Exec A
gets f db = (ok (f db), db)

abbrev pub modify : (Db → Db) → Exec (Unit {0})
modify f db = (ok tt, f db)

abbrev pub guard : Bool → Error → Exec (Unit {0})
guard b e db = (if b then ok tt else err e, db)

-- const thread = this.getThread(orgId, id); if (!thread) throw …
abbrev pub require_thread : String → String → Exec Thread
require_thread org id db =
    (elim (get_thread org id db) [ none ↦ err (thread_not_found id) | some t ↦ ok t ], db)

-- db.transaction(m)(): a throw inside rolls back.
abbrev pub transaction : {A : Type 0} → Exec A → Exec A
transaction m db = let (r, db') = m db in elim r [ ok a ↦ (ok a, db') | err e ↦ (err e, db) ]

-- INSERT INTO thread_messages: the primary key must be new and the author registered.
unfoldable pub insert_message : ThreadMessage → Exec (Unit {0})
insert_message m db = elim (any (λ (n : ThreadMessage). n.id == m.id) db.messages) [
  | true ↦ (err constraint_failed, db)
  | false ↦ elim (is_registered m.org_id m.agent_id db) [
    | true ↦ (ok tt, record db { messages = insert_row m db.messages })
    | false ↦ (err constraint_failed, db)
  ]
]
