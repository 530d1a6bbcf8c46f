-- ===== src/Workflow.antt =====
-- src/announce-workflow.ts: runCommonAnnounceFlow, which both transports call once announceWork
-- has opened the thread: it replaces the respondents by the agents that the scorer finds
-- concerned, and resolves a thread that has nobody to wait for. What it hands to the event
-- stream, the log of layer firings, the introspections and the assessment of the plan are left out.
pub mod Company
pub mod Outcome
use mcp_coordinator.Prelude.{
  ℕ, String, ◌≡◌, Bool, true, false, not, ◌&&◌, List, map, Option, none, some, ◌==◌, is_empty,
  select, if◌then◌else◌,
}
use mcp_coordinator.Clock.{to_iso}
use mcp_coordinator.Store.{
  Env, Db, Agent, Thread, resolved, auto_resolved, is_opened, get_thread, update_thread,
}
use mcp_coordinator.Consultation.Resolution.{emit_resolution}
use mcp_coordinator.Agents.{heartbeat, list_online}
use mcp_coordinator.Files.{FileActivity}
use mcp_coordinator.Files.Working.{WorkingFile}
use mcp_coordinator.Impact.{AnnounceParams, CoChange, ImpactScore, Tables, categorize}

-- The parameters of the flow, and the tables beside the shared ones that its scorer reads.
pub record Review : Type 0 where
  pub params : AnnounceParams
  pub keep_open : Bool
  pub ttl : ℕ
  pub edits : List FileActivity
  pub working : List WorkingFile
  pub cochange : List CoChange

abbrev pub reviewed_tables : Review → Db → Tables
reviewed_tables r db = record {
  ttl = r.ttl;
  db = db;
  edits = r.edits;
  working = r.working;
  cochange = r.cochange;
}

-- categorized.concerned.map((s) => s.agent_id)
unfoldable pub concerned_ids : Env → Review → Db → List String
concerned_ids env r db =
    map (λ (x : ImpactScore). x.agent_id) (categorize env r.params (reviewed_tables r db)).concerned

-- UPDATE threads SET expected_respondents = ? WHERE id = ? AND org_id = ?
abbrev pub override_respondents : Review → String → List String → Db → Db
override_respondents r id ids db =
    update_thread r.params.org_id id (λ t. record t { expected_respondents = ids }) db

-- otherOnlineCount === 0
unfoldable pub nobody_else : Env → Review → Db → Bool
nobody_else env r db = is_empty (
    select (λ (a : Agent). not (a.id == r.params.agent_id))
      (list_online env.now r.ttl r.params.org_id db))

unfoldable pub resolve_alone : Env → Review → String → Db → Db
resolve_alone env r id db = emit_resolution env id auto_resolved none none (
    update_thread r.params.org_id id
      (λ t. record t { status = resolved; resolved_at = some (to_iso env.now) }) db)

unfoldable pub auto_resolve : Env → Review → String → List String → Db → Db
unfolding nobody_else resolve_alone
auto_resolve env r id ids db = elim (get_thread r.params.org_id id db) [
  | none ↦ db
  | some current ↦
      if (is_empty ids && nobody_else env r db) && is_opened current && not r.keep_open
      then resolve_alone env r id db
      else db
]

unfoldable pub run_common_announce_flow : Env → Review → String → Db → Db
unfolding concerned_ids auto_resolve
run_common_announce_flow env r id db =
    let alive = heartbeat env r.params.org_id r.params.agent_id db in
    let ids = concerned_ids env r alive in
    auto_resolve env r id ids (override_respondents r id ids alive)
