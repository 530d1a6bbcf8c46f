-- ===== src/Claims.antt =====
-- src/http/rest-handlers.ts: handleClaimTask, findClaimFileConflict and handleUnclaimTask, after
-- the request body has been validated. The replies are the JSON bodies.
pub mod Grant
pub mod Refusal
pub mod Exclusion
pub mod Gap
pub mod Release
use mcp_coordinator.Prelude.{
  ℕ, ◌+◌, String, ◌≡◌, Bool, true, false, not, ◌&&◌, ◌||◌, List, [], ◌∷◌, ◌++◌, Option, none, some,
  ◌==◌, any, is_empty, includes, select, is_some, equals, differs, leb, if◌then◌else◌,
}
use mcp_coordinator.Clock.{to_iso}
use mcp_coordinator.Table.{find_row, update_where}
use mcp_coordinator.Store.{Env, Db, Thread, ThreadStatus, poisoned, is_opened, keyed, get_thread}

-- EXISTS (SELECT 1 FROM json_each(mine) JOIN json_each(theirs) ON mine.value = theirs.value)
abbrev pub shares_file : Thread → Thread → Bool
shares_file t other = any (includes other.target_files) t.target_files

-- The rows of the NOT EXISTS: another open thread of the organisation, held by someone else.
abbrev pub held_by_other : String → Thread → Thread → Bool
held_by_other agent t other =
    other.org_id == t.org_id
    && not (other.id == t.id)
    && is_opened other
    && differs other.claimed_by agent

abbrev pub blocks : String → Thread → Thread → Bool
blocks agent t other = held_by_other agent t other && shares_file t other

-- The WHERE clause of the UPDATE of handleClaimTask.
unfoldable pub claimable : String → String → String → List Thread → Thread → Bool
claimable org id agent threads t =
    keyed org id t
    && not (is_some t.claimed_by)
    && is_opened t
    && (not (is_some t.assigned_to) || equals t.assigned_to agent)
    && not (any (blocks agent t) threads)

pub record ClaimConflict : Type 0 where
  pub thread_id : String
  pub files : List String

pub data ClaimReply : Type 0 where
  success : ClaimReply
  refused :
      (claimed_by assigned_to : Option String) (status : Option ThreadStatus)
      → Option ClaimConflict
      → ClaimReply

-- The loop of findClaimFileConflict over the rows held by others.
unfoldable pub first_overlap : List String → List Thread → Option ClaimConflict
first_overlap wanted [] = none
first_overlap wanted (other ∷ rest) =
    let overlap = select (includes other.target_files) wanted in
    let later = first_overlap wanted rest in
    if is_empty overlap then later else some (record { thread_id = other.id; files = overlap })

-- org_id = ? AND id != ? AND status = 'open' AND claimed_by IS NOT NULL AND claimed_by != ?
abbrev pub is_held : String → String → String → Thread → Bool
is_held org id agent other =
    other.org_id == org && not (other.id == id) && is_opened other && differs other.claimed_by agent

unfoldable pub find_claim_file_conflict : String → String → String → Db → Option ClaimConflict
unfolding first_overlap
find_claim_file_conflict org id agent db = elim (get_thread org id db) [
  | none ↦ none
  | some candidate ↦
      if is_empty candidate.target_files
      then none
      else first_overlap candidate.target_files (select (is_held org id agent) db.threads)
]

-- thread?.claimed_by, and so on
unfoldable pub refusal : Option Thread → Option ClaimConflict → ClaimReply
refusal none conflict = refused none none none conflict
refusal (some t) conflict = refused t.claimed_by t.assigned_to (some t.status) conflict

-- The UPDATE sees the table as it was before the statement.
unfoldable pub handle_claim_task : Env → String → String → String → Db → ClaimReply × Db
unfolding claimable refusal find_claim_file_conflict
handle_claim_task env org id agent db =
    if any (claimable org id agent db.threads) db.threads
    then (
      success,
      record db {
        threads =
            update_where (claimable org id agent db.threads)
              (λ t. record t { claimed_by = some agent; claimed_at = some (to_iso env.now) })
              db.threads;
      },
    )
    else (refusal (get_thread org id db) (find_claim_file_conflict org id agent db), db)

abbrev pub poison_threshold : ℕ
poison_threshold = 2

pub record UnclaimReply : Type 0 where
  pub success : Bool
  pub poisoned : Bool

-- WHERE id = ? AND org_id = ? AND claimed_by = ? AND status = 'open'
abbrev pub unclaimable : String → String → String → Thread → Bool
unclaimable org id agent t = keyed org id t && equals t.claimed_by agent && is_opened t

abbrev pub unclaimed : Thread → Thread
unclaimed t = record t { claimed_by = none; claimed_at = none; unclaim_count = t.unclaim_count + 1 }

-- The second SELECT and UPDATE, once the first has changed its row.
unfoldable pub poison_worn_out : String → String → Db → UnclaimReply × Db
poison_worn_out org id db = elim (get_thread org id db) [
  | none ↦ (record { success = true; poisoned = false }, db)
  | some row ↦
      if leb poison_threshold row.unclaim_count
      then (
        record { success = true; poisoned = true },
        record db {
          threads =
              update_where (λ t. keyed org id t && is_opened t)
                (λ t. record t { status = poisoned }) db.threads;
        },
      )
      else (record { success = true; poisoned = false }, db)
]

unfoldable pub handle_unclaim_task : String → String → String → Db → UnclaimReply × Db
unfolding poison_worn_out
handle_unclaim_task org id agent db =
    let db' = record db {
      threads = update_where (unclaimable org id agent) unclaimed db.threads;
    } in
    if any (unclaimable org id agent) db.threads
    then poison_worn_out org id db'
    else (record { success = false; poisoned = false }, db)
