-- ===== src/Examples/Fixtures.antt =====
-- Two agents of one organisation, a few of their threads, and short histories.
use mcp_coordinator.Prelude.{true, String, List, [], ◌∷◌, Option, none, some}
use mcp_coordinator.Clock.{Timestamp, sqlite}
use mcp_coordinator.Store.{
  Env, Db, Agent, online, Thread, ThreadStatus, ThreadMessage, opened, resolving, approve,
}
use mcp_coordinator.Consultation.Opening.{Announcement}
use mcp_coordinator.History.{Call, announces, claims, unclaims, proposes, contests}

abbrev pub noon : Timestamp
noon = sqlite 20000 43200

abbrev pub env_at_noon : Env
env_at_noon = record { now = 1728043200000; uuid = "m-9" }

abbrev pub agent : String → Agent
agent name = record {
  id = name;
  org_id = "acme";
  name = name;
  modules = "src/api" ∷ [];
  status = online;
  registered_at = noon;
  last_seen_at = noon;
}

abbrev thread : String → ThreadStatus → Option String → Thread
thread id status holder = record {
  id = id;
  org_id = "acme";
  initiator_id = "alice";
  subject = "rename a field";
  plan = none;
  target_modules = "src/api" ∷ [];
  target_files = "src/api/user.ts" ∷ [];
  status = status;
  resolution_summary = none;
  round = 1;
  max_rounds = 4;
  timeout_seconds = 600;
  created_at = noon;
  resolved_at = none;
  expected_respondents = "bob" ∷ [];
  depends_on_files = [];
  exports_affected = [];
  claimed_by = holder;
  claimed_at = none;
  unclaim_count = 0;
  assigned_to = none;
  run_id = none;
}

abbrev database : List Thread → List ThreadMessage → Db
database threads messages = record {
  agents = agent "alice" ∷ agent "bob" ∷ [];
  threads = threads;
  messages = messages;
  resolutions = [];
}

abbrev pub free_thread : Thread
free_thread = thread "t-1" opened none

abbrev pub held_thread : Thread
held_thread = thread "t-2" opened (some "bob")

abbrev pub one_free : Db
one_free = database (free_thread ∷ []) []

abbrev pub one_held : Db
one_held = database (held_thread ∷ []) []

-- `t-1` names a file of `t-2`, which bob holds.
abbrev pub free_and_held : Db
free_and_held = database (free_thread ∷ held_thread ∷ []) []

abbrev pub pending_thread : Thread
pending_thread = thread "t-1" resolving (some "alice")

abbrev pub pending_and_held : Db
pending_and_held = database (pending_thread ∷ held_thread ∷ []) []

abbrev pub one_pending : Db
one_pending = database (pending_thread ∷ []) []

-- The message that approveResolution posts for the agent at noon.
abbrev pub approval : String → ThreadMessage
approval by = record {
  id = "m-9";
  org_id = "acme";
  thread_id = "t-1";
  agent_id = by;
  agent_name = none;
  type = approve;
  content = "Approved";
  context_snapshot = none;
  in_reply_to = none;
  round = 1;
  token_estimate = 0;
  created_at = noon;
}

abbrev pub one_pending_voted : String → Db
one_pending_voted by = database (pending_thread ∷ []) (approval by ∷ [])

abbrev announcement : String → Announcement
announcement by = record {
  agent_id = by;
  subject = "rename a field";
  plan = none;
  target_modules = "src/api" ∷ [];
  target_files = "src/api/user.ts" ∷ [];
  depends_on_files = [];
  exports_affected = [];
  keep_open = true;
  assigned_to = none;
  run_id = none;
}

abbrev pub busy_day : List (Env × Call)
busy_day =
    (env_at_noon, announces "acme" (announcement "alice"))
    ∷ (env_at_noon, claims "acme" "t-1" "alice")
    ∷ (env_at_noon, proposes "acme" "t-1" "alice" "done")
    ∷ (env_at_noon, contests "acme" "t-1" "bob" "not yet")
    ∷ (env_at_noon, unclaims "acme" "t-1" "alice")
    ∷ []

-- `t-2` was announced by bob, who holds it.
abbrev pub rivals : Db
rivals = database (free_thread ∷ record held_thread { initiator_id = "bob" } ∷ []) []
