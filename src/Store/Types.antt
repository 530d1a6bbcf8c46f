-- ===== src/Store/Types.antt =====
-- The rows of the tables that the coordination services share (src/types.ts, src/database.ts).
-- A column of JSON text holds what JSON.stringify wrote, so it is modelled by the list of texts.
use mcp_coordinator.Prelude.{ℕ, String, List, Option, Bool}
use mcp_coordinator.Clock.{Timestamp}

pub data AgentStatus : Type 0 where
  online offline : AgentStatus

pub record Agent : Type 0 where
  pub id : String
  pub org_id : String
  pub name : String
  pub modules : List String
  pub status : AgentStatus
  pub registered_at : Timestamp
  pub last_seen_at : Timestamp

-- `opened` is the status 'open'.
pub data ThreadStatus : Type 0 where
  opened resolving resolved cancelled poisoned : ThreadStatus

pub data ResolutionType : Type 0 where
  consensus auto_resolved timeout closed max_rounds agent_departure : ResolutionType

pub record Thread : Type 0 where
  pub id : String
  pub org_id : String
  pub initiator_id : String
  pub subject : String
  pub plan : Option String
  pub target_modules : List String
  pub target_files : List String
  pub status : ThreadStatus
  pub resolution_summary : Option String
  pub round : ℕ
  pub max_rounds : ℕ
  pub timeout_seconds : ℕ
  pub created_at : Timestamp
  pub resolved_at : Option Timestamp
  pub expected_respondents : List String
  pub depends_on_files : List String
  pub exports_affected : List String
  pub claimed_by : Option String
  pub claimed_at : Option Timestamp
  pub unclaim_count : ℕ
  pub assigned_to : Option String
  pub run_id : Option String

pub data MessageType : Type 0 where
  context suggestion warning resolution approve contest : MessageType

pub record ThreadMessage : Type 0 where
  pub id : String
  pub org_id : String
  pub thread_id : String
  pub agent_id : String
  pub agent_name : Option String
  pub type : MessageType
  pub content : String
  pub context_snapshot : Option String
  pub in_reply_to : Option String
  pub round : ℕ
  pub token_estimate : ℕ
  pub created_at : Timestamp

-- What Consultation hands to the callback of onResolve.
pub record ResolutionEvent : Type 0 where
  pub thread_id : String
  pub org_id : String
  pub resolution_type : ResolutionType
  pub resolution_summary : Option String
  pub created_at : Timestamp
  pub resolved_at : Timestamp
  pub approved_by : Option String
  pub approved_by_name : Option String
  pub had_messages : Bool
