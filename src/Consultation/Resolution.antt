-- ===== src/Consultation/Resolution.antt =====
-- Consultation: proposeResolution, approveResolution, contestResolution, cancelThread, closeThread,
-- emitResolution, and the private helpers postResolutionMessage and allRespondentsApproved.
use mcp_coordinator.Prelude.{
  ℕ, ◌+◌, String, Bool, true, false, ◌&&◌, ◌||◌, Option, none, some, ◌==◌, any, all, equals,
  or_null, eq_ℕ, ltb, if◌then◌else◌,
}
use Prim.Native.String.{◌++◌ as text_append}
use mcp_coordinator.Clock.{Timestamp, current_timestamp, to_iso}
use mcp_coordinator.Table.{find_row, insert_row, update_where}
use mcp_coordinator.Store.{
  Env, Db, Thread, ThreadMessage, MessageType, ResolutionType, ResolutionEvent, opened, resolving,
  resolved, cancelled, context, resolution, approve, contest, consensus, closed, max_rounds,
  is_resolving, is_active, keyed, update_thread,
}
use mcp_coordinator.Consultation.Exec.{
  Exec, ok, ◌>>=◌, ◌>>◌, pure, gets, modify, guard, require_thread, transaction, insert_message,
  only_initiator_or_claimant, not_resolving, only_initiator_can_cancel, only_initiator_may_close,
  cannot_close,
}

-- `type = 'approve'`
abbrev pub is_approval : ThreadMessage → Bool
is_approval m = elim m.type [ approve ↦ true | _ ↦ false ]

abbrev pub or_else : Option Timestamp → Timestamp → Timestamp
or_else none now = now
or_else (some t) now = t

-- What emitResolution hands to the callback, for the thread that it finds.
abbrev pub event :
    Env → String → ResolutionType → Option String → Option String → Db → Thread → ResolutionEvent
event env id type by name db thread = record {
  thread_id = id;
  org_id = thread.org_id;
  resolution_type = type;
  resolution_summary = thread.resolution_summary;
  created_at = thread.created_at;
  resolved_at = or_else thread.resolved_at (to_iso env.now);
  approved_by = by;
  approved_by_name = name;
  had_messages = any (λ (m : ThreadMessage). m.thread_id == id) db.messages;
}

-- The lookup is by id alone, across organisations.
unfoldable pub emit_resolution :
    Env → String → ResolutionType → Option String → Option String → Db → Db
emit_resolution env id type by name db = elim (find_row (λ (t : Thread). t.id == id) db.threads) [
  | none ↦ db
  | some thread ↦ record db {
    resolutions = insert_row (event env id type by name db thread) db.resolutions;
  }
]

unfoldable pub resolution_message :
    Env → String → String → String → MessageType → String → ℕ → ThreadMessage
resolution_message env org id agent type content round = record {
  id = env.uuid;
  org_id = org;
  thread_id = id;
  agent_id = agent;
  agent_name = none;
  type = type;
  content = content;
  context_snapshot = none;
  in_reply_to = none;
  round = round;
  token_estimate = 0;
  created_at = current_timestamp env.now;
}

-- The callers have found the thread already.
unfoldable pub post_resolution_message :
    Env → String → String → String → MessageType → String → Exec (Unit {0})
unfolding resolution_message
post_resolution_message env org id agent type content = do
  thread ← require_thread org id
  insert_message (resolution_message env org id agent type content thread.round)

-- SELECT … WHERE thread_id = ? AND type = 'approve' AND round = ?, and `approvedIds.has(agent)`
abbrev pub has_approved : String → ℕ → String → ThreadMessage → Bool
has_approved id round agent m =
    m.thread_id == id && is_approval m && eq_ℕ m.round round && m.agent_id == agent

unfoldable pub all_respondents_approved : String → Thread → Db → Bool
all_respondents_approved id thread db =
    all (λ r. any (has_approved id thread.round r) db.messages) thread.expected_respondents

unfoldable pub propose_resolution : Env → String → String → String → String → Exec (Unit {0})
propose_resolution env org id agent summary = do
  thread ← require_thread org id
  guard (thread.initiator_id == agent || equals thread.claimed_by agent) only_initiator_or_claimant
  modify (
      update_thread org id
        (λ t. record t { status = resolving; resolution_summary = some summary }))
  post_resolution_message env org id agent resolution summary

-- UPDATE … WHERE id = ? AND org_id = ? AND status = 'resolving', and `changes > 0`
unfoldable pub win_race : Env → String → String → Exec Bool
win_race env org id db = (
  ok (any (λ t. keyed org id t && is_resolving t) db.threads),
  record db {
    threads =
        update_where (λ t. keyed org id t && is_resolving t)
          (λ t. record t { status = resolved; resolved_at = some (to_iso env.now) }) db.threads;
  },
)

-- if (!this.allRespondentsApproved(…)) return false; …
unfoldable pub tally : Env → String → String → Exec Bool
unfolding win_race all_respondents_approved
tally env org id = do
  thread ← require_thread org id
  agreed ← gets (all_respondents_approved id thread)
  if agreed then win_race env org id else pure false

-- The body of the transaction of approveResolution.
unfoldable pub vote : Env → String → String → String → Exec Bool
unfolding tally
vote env org id agent = do
  post_resolution_message env org id agent approve "Approved"
  tally env org id

-- agentName || agentId
abbrev pub agent_label : Option String → String → String
agent_label name agent = elim (or_null name) [ none ↦ agent | some n ↦ n ]

unfoldable pub announce_consensus : Env → String → String → Option String → Bool → Exec (Unit {0})
announce_consensus env id agent name won =
    if won
    then modify (emit_resolution env id consensus (some agent) (some (agent_label name agent)))
    else pure tt

unfoldable pub approve_resolution : Env → String → String → String → Option String → Exec (Unit {0})
unfolding vote announce_consensus
approve_resolution env org id agent name = do
  thread ← require_thread org id
  guard (is_resolving thread) (not_resolving thread.status)
  won ← transaction (vote env org id agent)
  announce_consensus env id agent name won

-- Back to open with the next round, or resolved after the last one.
unfoldable pub next_round : Env → String → String → Thread → Exec (Unit {0})
next_round env org id thread =
    if ltb thread.max_rounds (thread.round + 1)
    then (do
      modify (
          update_thread org id
            (λ t. record t { status = resolved; resolved_at = some (to_iso env.now) }))
      modify (emit_resolution env id max_rounds none none))
    else modify (
        update_thread org id
          (λ t. record t { status = opened; round = thread.round + 1; resolution_summary = none }))

unfoldable pub contest_resolution : Env → String → String → String → String → Exec (Unit {0})
contest_resolution env org id agent reason = do
  thread ← require_thread org id
  guard (is_resolving thread) (not_resolving thread.status)
  post_resolution_message env org id agent contest reason
  next_round env org id thread

-- if (reason) …: the reason is absent where the caller gives none or an empty one.
unfoldable pub explain : Env → String → String → String → Option String → Exec (Unit {0})
explain env org id agent none = pure tt
explain env org id agent (some reason) =
    post_resolution_message env org id agent context (text_append "Cancelled: " reason)

unfoldable pub cancel_thread : Env → String → String → String → Option String → Exec (Unit {0})
unfolding explain
cancel_thread env org id agent reason = do
  thread ← require_thread org id
  guard (thread.initiator_id == agent) only_initiator_can_cancel
  modify (
      update_thread org id
        (λ t. record t { status = cancelled; resolved_at = some (to_iso env.now) }))
  explain env org id agent (or_null reason)

unfoldable pub close_thread : Env → String → String → String → String → Exec (Unit {0})
close_thread env org id agent summary = do
  thread ← require_thread org id
  guard (thread.initiator_id == agent) only_initiator_may_close
  guard (is_active thread) (cannot_close thread.status)
  modify (
      update_thread org id (λ t. record t {
        status = resolved;
        resolution_summary = some summary;
        resolved_at = some (to_iso env.now);
      }))
  modify (emit_resolution env id closed none none)
