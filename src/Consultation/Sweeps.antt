-- ===== src/Consultation/Sweeps.antt =====
-- Consultation: handleAgentDeparture and checkTimeouts.
use mcp_coordinator.Prelude.{
  ℕ, ◌*◌, String, Bool, not, ◌&&◌, List, [], ◌∷◌, none, some, ◌==◌, is_empty, select, equals, ltb,
  if◌then◌else◌,
}
use mcp_coordinator.Clock.{current_timestamp, to_iso, add_seconds, text_lt}
use mcp_coordinator.Table.{find_row, update_where}
use mcp_coordinator.Store.{
  Env, Db, Thread, resolved, agent_departure, timeout, is_opened, is_resolving, is_active,
  update_thread,
}
use mcp_coordinator.Consultation.Resolution.{emit_resolution, all_respondents_approved}

-- UPDATE threads SET claimed_by = NULL … WHERE claimed_by = ? AND status = 'open' AND org_id = ?
abbrev pub unclaim_all : String → String → Db → Db
unclaim_all org agent db = record db {
  threads =
      update_where (λ t. equals t.claimed_by agent && is_opened t && t.org_id == org)
        (λ t. record t { claimed_by = none; claimed_at = none }) db.threads;
}

abbrev pub without : String → List String → List String
without agent ids = select (λ r. not (r == agent)) ids

-- UPDATE … SET status = 'resolved' …, and the event
unfoldable pub resolve_departed : Env → Thread → Db → Db
resolve_departed env thread db = emit_resolution env thread.id agent_departure none none (
    update_thread thread.org_id thread.id
      (λ t. record t { status = resolved; resolved_at = some (to_iso env.now) }) db)

-- The two tests at the end of the loop's body; `row` is as the SELECT returned it.
unfoldable pub settle_departed : Env → Thread → List String → Db → Db
unfolding resolve_departed
settle_departed env row updated db = elim (find_row (λ (t : Thread). t.id == row.id) db.threads) [
  | none ↦ db
  | some t ↦
      if is_resolving t && all_respondents_approved row.id t db
      then resolve_departed env row db
      else if is_opened t && is_empty updated
      then resolve_departed env row db
      else db
]

-- The body of the loop.
unfoldable pub depart_thread : Env → String → Thread → Db → Db
unfolding settle_departed
depart_thread env agent row db =
    let updated = without agent row.expected_respondents in
    settle_departed env row updated
      (update_thread row.org_id row.id (λ t. record t { expected_respondents = updated }) db)

unfoldable pub depart_threads : Env → String → List Thread → Db → Db
unfolding depart_thread
depart_threads env agent [] db = db
depart_threads env agent (row ∷ rows) db =
    depart_threads env agent rows (depart_thread env agent row db)

unfoldable pub handle_agent_departure : Env → String → String → Db → Db
unfolding depart_threads
handle_agent_departure env org agent db =
    let db' = unclaim_all org agent db in
    depart_threads env agent (select (λ t. is_active t && t.org_id == org) db'.threads) db'

-- status IN ('open', 'resolving') AND timeout_seconds > 0
-- AND datetime(created_at, '+' || (timeout_seconds * round) || ' seconds') < CURRENT_TIMESTAMP
unfoldable pub is_overdue : ℕ → Thread → Bool
is_overdue now t =
    is_active t
    && ltb 0 t.timeout_seconds
    && text_lt (add_seconds t.created_at (t.timeout_seconds * t.round)) (current_timestamp now)

abbrev pub timeout_summary : String
timeout_summary = "Résolu par timeout — pas de réponse dans le délai"

unfoldable pub time_out : ℕ → Thread → Thread
time_out now t = record t {
  status = resolved;
  resolution_summary = some timeout_summary;
  resolved_at = some (current_timestamp now);
}

unfoldable pub emit_all : Env → List Thread → Db → Db
emit_all env [] db = db
emit_all env (t ∷ ts) db = emit_all env ts (emit_resolution env t.id timeout none none db)

unfoldable pub check_timeouts : Env → Db → Db
unfolding is_overdue time_out emit_all
check_timeouts env db =
    emit_all env (select (is_overdue env.now) db.threads)
      (record db { threads = update_where (is_overdue env.now) (time_out env.now) db.threads })
