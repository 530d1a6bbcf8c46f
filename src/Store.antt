-- ===== src/Store.antt =====
-- The database of the coordination services, and the values that a call reads from outside.
mod Types
pub use Types.*
use mcp_coordinator.Prelude.{
  ℕ, String, List, [], ◌∷◌, ◌++◌, Option, none, some, ◌≡◌, Bool, true, false, ◌&&◌, ◌==◌, any,
}
use mcp_coordinator.Table.{find_row, update_where, insert_row}

-- Date.now() and the next randomUUID() at the time of a call.
pub record Env : Type 0 where
  pub now : ℕ
  pub uuid : String

-- `resolutions` are the events that the callback has been handed, oldest first.
pub record Db : Type 0 where
  pub agents : List Agent
  pub threads : List Thread
  pub messages : List ThreadMessage
  pub resolutions : List ResolutionEvent

abbrev pub initial : Db
initial = record { agents = []; threads = []; messages = []; resolutions = [] }

-- `status = '…'`, `status IN ('open', 'resolving')` and `type = 'approve'` of SQL
abbrev pub is_opened : Thread → Bool
is_opened t = elim t.status [ opened ↦ true | _ ↦ false ]

abbrev pub is_resolving : Thread → Bool
is_resolving t = elim t.status [ resolving ↦ true | _ ↦ false ]

abbrev pub is_resolved : Thread → Bool
is_resolved t = elim t.status [ resolved ↦ true | _ ↦ false ]

abbrev pub is_cancelled : Thread → Bool
is_cancelled t = elim t.status [ cancelled ↦ true | _ ↦ false ]

abbrev pub is_active : Thread → Bool
is_active t = elim t.status [ opened ↦ true | resolving ↦ true | _ ↦ false ]

abbrev pub is_online : Agent → Bool
is_online a = elim a.status [ online ↦ true | offline ↦ false ]

-- WHERE id = ? AND org_id = ?
abbrev pub keyed : String → String → Thread → Bool
keyed org id t = t.id == id && t.org_id == org

-- getThread
abbrev pub get_thread : String → String → Db → Option Thread
get_thread org id db = find_row (keyed org id) db.threads

-- UPDATE threads SET f WHERE id = ? AND org_id = ?
abbrev pub update_thread : String → String → (Thread → Thread) → Db → Db
update_thread org id f db = record db { threads = update_where (keyed org id) f db.threads }

-- FOREIGN KEY (org_id, agent_id) REFERENCES agents(org_id, id)
abbrev pub is_registered : String → String → Db → Bool
is_registered org agent db = any (λ a. a.id == agent && a.org_id == org) db.agents
