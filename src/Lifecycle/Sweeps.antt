-- ===== src/Lifecycle/Sweeps.antt =====
-- The departure of an agent and the timeout sweep, as transitions.
use mcp_coordinator.Prelude.{
  ◌≡◌, refl, ap, ◌∙◌, inl, inr, String, true, ◌&&◌, List, [], ◌∷◌, none, some, ◌==◌, eq_iff,
  is_empty, All, All-of_Mem, Mem_of_select, select, arith, Bool-cases, Option-cases,
}
use mcp_coordinator.Clock.{to_iso, current_timestamp}
use mcp_coordinator.Table.{find_row, find_row-Mem, update_where}
use mcp_coordinator.Store.{
  Env, Db, Thread, agent_departure, timeout, is_opened, is_resolving, is_active, keyed,
}
use mcp_coordinator.Consultation.Resolution.{all_respondents_approved}
use mcp_coordinator.Consultation.Sweeps.{
  unclaim_all, without, resolve_departed, settle_departed, depart_thread, depart_threads,
  handle_agent_departure, is_overdue, time_out, timeout_summary, emit_all, check_timeouts,
}
use mcp_coordinator.Lifecycle.{release, readdress, resolve}
use mcp_coordinator.Lifecycle.Keys.{IsKeyed-unique}
use mcp_coordinator.Lifecycle.Lives.{
  Lives, within, Lives-same, Lives-refl, Lives-trans, Lives-update,
}
use mcp_coordinator.Lifecycle.Resolution.{threads-emit_resolution}

unclaim_all-Lives :
    (org agent : String) (db : Db) → Lives (within org) db (unclaim_all org agent db)
unclaim_all-Lives org agent db =
    Lives-update db _ _ (λ x. refl) (λ x h. ground arith)
      λ k x m h. release x.unclaim_count (ground arith) (omega arith) refl

resolve_departed-Lives :
    (env : Env) (org : String) (row t : Thread) (db : Db)
    → (row.org_id == org) ≡ true
    → find_row (λ (u : Thread). u.id == row.id) db.threads ≡ some t
    → is_active t ≡ true
    → Lives (within org) db (resolve_departed env row db)
unfolding resolve_departed
resolve_departed-Lives env org row t db here found active =
    Lives-trans
      (Lives-update db (keyed row.org_id row.id) _ (λ x. refl)
        (λ x h. ground (arith, eq_iff x.org_id row.org_id, here))
        λ k x m h.
          let (n, there) = find_row-Mem _ db.threads found in
          let same : x ≡ t =
            IsKeyed-unique k m n (ground (arith, eq_iff x.id row.id, eq_iff t.id row.id)) in
          resolve x.resolution_summary (to_iso env.now) (ap is_active same ∙ active) refl)
      (Lives-same (threads-emit_resolution env row.id agent_departure none none _))

settle_departed-Lives :
    (env : Env) (org : String) (row : Thread) (updated : List String) (db : Db)
    → (row.org_id == org) ≡ true
    → Lives (within org) db (settle_departed env row updated db)
unfolding settle_departed
settle_departed-Lives env org row updated db here =
    elim (Option-cases (find_row (λ (t : Thread). t.id == row.id) db.threads)) [
      | inl e ↦ rw (e, settle_departed) Lives-refl
      | inr (t, e) ↦ elim (Bool-cases (is_resolving t && all_respondents_approved row.id t db)) [
        | inl h ↦
            rw (e, h, settle_departed)
              (resolve_departed-Lives env org row t db here e (ground arith))
        | inr h ↦ elim (Bool-cases (is_opened t && is_empty updated)) [
          | inl g ↦
              rw (e, h, g, settle_departed)
                (resolve_departed-Lives env org row t db here e (ground arith))
          | inr g ↦ rw (e, h, g, settle_departed) Lives-refl
        ]
      ]
    ]

depart_threads-Lives :
    (env : Env) (org agent : String) (rows : List Thread) (db : Db)
    → All (λ (r : Thread). (r.org_id == org) ≡ true) rows
    → Lives (within org) db (depart_threads env agent rows db)
unfolding depart_threads depart_thread
depart_threads-Lives env org agent [] db here = Lives-refl
depart_threads-Lives env org agent (row ∷ rows) db here =
    Lives-trans
      (Lives-update db (keyed row.org_id row.id) _ (λ x. refl)
        (λ x h. ground (arith, eq_iff x.org_id row.org_id, here))
        λ k x m h. readdress (without agent row.expected_respondents) refl)
      (Lives-trans
        (settle_departed-Lives env org row (without agent row.expected_respondents) _ here.0)
        (depart_threads-Lives env org agent rows _ here.1))

pub departure-Lives :
    (env : Env) (org agent : String) (db : Db)
    → Lives (within org) db (handle_agent_departure env org agent db)
unfolding handle_agent_departure
departure-Lives env org agent db =
    let db' = unclaim_all org agent db in
    let rows = select (λ t. is_active t && t.org_id == org) db'.threads in
    Lives-trans (unclaim_all-Lives org agent db) (
      depart_threads-Lives env org agent rows db'
        (All-of_Mem _ rows (λ r m. let (n, h) = Mem_of_select _ db'.threads m in ground arith)))

pub threads-emit_all :
    (env : Env) (ts : List Thread) (db : Db) → (emit_all env ts db).threads ≡ db.threads
unfolding emit_all
threads-emit_all env [] db = refl
threads-emit_all env (t ∷ ts) db =
    threads-emit_all env ts _ ∙ threads-emit_resolution env t.id timeout none none db

pub timeouts-Lives : (env : Env) (db : Db) → Lives (λ _. true) db (check_timeouts env db)
unfolding check_timeouts is_overdue time_out
timeouts-Lives env db =
    let overdue = select (is_overdue env.now) db.threads in
    let db' =
      let after : Db = record db {
        threads = update_where (is_overdue env.now) (time_out env.now) db.threads;
      } in
      after in
    Lives-trans
      (Lives-update db (is_overdue env.now) (time_out env.now) (λ x. refl) (λ x h. refl)
        λ k x m h. resolve (some timeout_summary) (current_timestamp env.now) (ground arith) refl)
      (Lives-same (threads-emit_all env overdue db'))
