-- ===== src/History.antt =====
-- The calls that the coordinator serves, one after the other, from any organisation: the methods
-- of src/consultation.ts and the claim handlers of src/http/rest-handlers.ts over one database.
-- SQLite runs each statement or transaction alone, and the methods do not yield, so a history
-- is a sequence of calls.
pub mod Safety
use mcp_coordinator.Prelude.{ℕ, String, List, [], ◌∷◌, Option}
use mcp_coordinator.Store.{Env, Db}
use mcp_coordinator.Consultation.Resolution.{
  propose_resolution, approve_resolution, contest_resolution, cancel_thread, close_thread,
}
use mcp_coordinator.Consultation.Opening.{Announcement, Post, announce_work, post_to_thread}
use mcp_coordinator.Consultation.Sweeps.{handle_agent_departure, check_timeouts}
use mcp_coordinator.Agents.{register, heartbeat, set_offline}
use mcp_coordinator.Workflow.{Review, run_common_announce_flow}
use mcp_coordinator.Claims.{handle_claim_task, handle_unclaim_task}

-- The first argument of a call is the organisation of the caller's token.
pub data Call : Type 0 where
  announces : String → Announcement → Call
  posts : String → Post → Call
  proposes : (org thread agent summary : String) → Call
  approves : (org thread agent : String) → Option String → Call
  contests : (org thread agent reason : String) → Call
  cancels : (org thread agent : String) → Option String → Call
  closes : (org thread agent summary : String) → Call
  claims : (org thread agent : String) → Call
  unclaims : (org thread agent : String) → Call
  departs : (org agent : String) → Call
  sweeps : Call
  reviews : (thread : String) → Review → Call
  registers : (org agent name : String) → (modules : List String) → Call
  beats : (org agent : String) → Call
  goes_offline : (org agent : String) → Call

-- `utf16_length` is the `length` of a JavaScript string.
module _ (utf16_length : String → ℕ) where
  unfoldable pub step : Env → Call → Db → Db
  step env (announces org p) db = (announce_work env org p db).1
  step env (posts org p) db = (post_to_thread utf16_length env org p db).1
  step env (proposes org id agent summary) db = (propose_resolution env org id agent summary db).1
  step env (approves org id agent name) db = (approve_resolution env org id agent name db).1
  step env (contests org id agent reason) db = (contest_resolution env org id agent reason db).1
  step env (cancels org id agent reason) db = (cancel_thread env org id agent reason db).1
  step env (closes org id agent summary) db = (close_thread env org id agent summary db).1
  step env (claims org id agent) db = (handle_claim_task env org id agent db).1
  step env (unclaims org id agent) db = (handle_unclaim_task org id agent db).1
  step env (departs org agent) db = handle_agent_departure env org agent db
  step env sweeps db = check_timeouts env db
  step env (reviews id r) db = run_common_announce_flow env r id db
  step env (registers org agent name modules) db = register env org agent name modules db
  step env (beats org agent) db = heartbeat env org agent db
  step env (goes_offline org agent) db = set_offline env org agent db

  unfoldable pub run : List (Env × Call) → Db → Db
  unfolding step
  run [] db = db
  run ((env, call) ∷ rest) db = run rest (step env call db)
