-- ===== src/Consultation/Rounds.antt =====
-- contestResolution: what a contest does to the thread, once its message is posted.
use mcp_coordinator.Prelude.{ℕ, ◌+◌, ◌≤◌, ◌≡◌, String, true, false, none, some, arith, ltb}
use mcp_coordinator.Store.{
  Env, Db, Thread, opened, contest, is_resolving, get_thread, update_thread,
}
use mcp_coordinator.Consultation.Exec.{ok, ◌>>=◌, ◌>>◌}
use mcp_coordinator.Consultation.Resolution.{
  post_resolution_message, contest_resolution, next_round,
}

-- The row of a contested thread with rounds left.
abbrev pub reopened : ℕ → Thread → Thread
reopened round t = record t { status = opened; round = round; resolution_summary = none }

module _ (env : Env) (org id agent reason : String) (db : Db) (t : Thread) where
  abbrev pub after_contest : Db
  after_contest = (post_resolution_message env org id agent contest reason db).1

  pub contest_reopens :
      get_thread org id db ≡ some t
      → is_resolving t ≡ true
      → t.round + 1 ≤ t.max_rounds
      → (post_resolution_message env org id agent contest reason db).0 ≡ ok tt
      → contest_resolution env org id agent reason db
        ≡ (ok tt, update_thread org id (reopened (t.round + 1)) after_contest)
  unfolding contest_resolution next_round
  contest_reopens found r room posted =
      let last : ltb t.max_rounds (t.round + 1) ≡ false = ground arith in
      rw (found, ◌>>=◌, r, ◌>>◌, posted, last)
