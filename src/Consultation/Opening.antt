-- ===== src/Consultation/Opening.antt =====
-- Consultation: announceWork and postToThread.
use Prim.Native.String.{◌++◌ as text_append}
use mcp_coordinator.Prelude.{
  ℕ, ◌+◌, ◌/◌, String, Bool, true, false, not, ◌&&◌, ◌||◌, List, map, Option, none, some, ◌==◌,
  starts_with, any, is_empty, is_some, select, or_null, if◌then◌else◌,
}
use mcp_coordinator.Clock.{current_timestamp, to_iso}
use mcp_coordinator.Table.{insert_row}
use mcp_coordinator.Store.{
  Env, Db, Agent, Thread, ThreadMessage, MessageType, opened, resolved, is_online, is_cancelled,
  is_registered,
}
use mcp_coordinator.Consultation.Exec.{
  Exec, ok, err, ◌>>=◌, ◌>>◌, pure, guard, require_thread, transaction, insert_message,
  constraint_failed, thread_is_cancelled,
}

pub record Announcement : Type 0 where
  pub agent_id : String
  pub subject : String
  pub plan : Option String
  pub target_modules : List String
  pub target_files : List String
  pub depends_on_files : List String
  pub exports_affected : List String
  pub keep_open : Bool
  pub assigned_to : Option String
  pub run_id : Option String

-- am === tm || am.startsWith(tm + "/") || tm.startsWith(am + "/")
unfoldable pub modules_overlap : String → String → Bool
modules_overlap am tm =
    am == tm || starts_with am (text_append tm "/") || starts_with tm (text_append am "/")

-- The online agents of the organisation but the announcer, that own a module near a target.
abbrev pub is_respondent : String → Announcement → Agent → Bool
is_respondent org p a =
    is_online a
    && not (a.id == p.agent_id)
    && a.org_id == org
    && any (λ tm. any (λ am. modules_overlap am tm) a.modules) p.target_modules

unfoldable pub respondents : String → Announcement → Db → List String
respondents org p db = map (λ (a : Agent). a.id) (select (is_respondent org p) db.agents)

-- A directed thread stays open for the agent that it names.
abbrev pub stays_open : Announcement → Bool
stays_open p = p.keep_open || is_some p.assigned_to

unfoldable pub new_thread : Env → String → Announcement → List String → Thread
new_thread env org p ids =
    let auto_resolve = is_empty ids && not (stays_open p) in
    record {
      id = env.uuid;
      org_id = org;
      initiator_id = p.agent_id;
      subject = p.subject;
      plan = or_null p.plan;
      target_modules = p.target_modules;
      target_files = p.target_files;
      status = if auto_resolve then resolved else opened;
      resolution_summary = none;
      round = 1;
      max_rounds = 4;
      timeout_seconds = if stays_open p then 0 else 600;
      created_at = current_timestamp env.now;
      resolved_at = if auto_resolve then some (to_iso env.now) else none;
      expected_respondents = ids;
      depends_on_files = p.depends_on_files;
      exports_affected = p.exports_affected;
      claimed_by = none;
      claimed_at = none;
      unclaim_count = 0;
      assigned_to = p.assigned_to;
      run_id = p.run_id;
    }

-- INSERT INTO threads: the primary key must be new and the initiator registered.
unfoldable pub insert_thread : Thread → Exec (Unit {0})
insert_thread t db = elim (any (λ (u : Thread). u.id == t.id) db.threads) [
  | true ↦ (err constraint_failed, db)
  | false ↦ elim (is_registered t.org_id t.initiator_id db) [
    | true ↦ (ok tt, record db { threads = insert_row t db.threads })
    | false ↦ (err constraint_failed, db)
  ]
]

unfoldable pub open_thread : Env → String → Announcement → Exec (Unit {0})
unfolding new_thread insert_thread respondents
open_thread env org p db = insert_thread (new_thread env org p (respondents org p db)) db

unfoldable pub announce_work : Env → String → Announcement → Exec Thread
unfolding open_thread
announce_work env org p = do transaction (open_thread env org p); require_thread org env.uuid

pub record Post : Type 0 where
  pub thread_id : String
  pub agent_id : String
  pub agent_name : Option String
  pub type : MessageType
  pub content : String
  pub context_snapshot : Option String
  pub in_reply_to : Option String

-- `content.length` is a parameter: it counts UTF-16 units.
unfoldable pub post_message : Env → String → Post → ℕ → ℕ → ThreadMessage
post_message env org p round length = record {
  id = env.uuid;
  org_id = org;
  thread_id = p.thread_id;
  agent_id = p.agent_id;
  agent_name = or_null p.agent_name;
  type = p.type;
  content = p.content;
  context_snapshot = or_null p.context_snapshot;
  in_reply_to = or_null p.in_reply_to;
  round = round;
  token_estimate = (length + 3) / 4;
  created_at = current_timestamp env.now;
}

unfoldable pub post_to_thread : (String → ℕ) → Env → String → Post → Exec ThreadMessage
unfolding post_message
post_to_thread utf16_length env org p = do
  thread ← require_thread org p.thread_id
  guard (not (is_cancelled thread)) (thread_is_cancelled p.thread_id)
  let m = post_message env org p thread.round (utf16_length p.content)
  insert_message m
  pure m
