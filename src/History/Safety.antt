-- ===== src/History/Safety.antt =====
-- What holds after any history of calls, whoever makes them and in whatever order.
use mcp_coordinator.Prelude.{ℕ, ◌≡◌, refl, String, Bool, true, false, List, [], ◌∷◌, All}
use mcp_coordinator.Table.Evolves.{Evolves, All-Evolves, Evolves-mono}
use mcp_coordinator.Store.{Env, Db, initial}
use mcp_coordinator.History.{
  Call, announces, posts, proposes, approves, contests, cancels, closes, claims, unclaims, departs,
  reviews, registers, beats, goes_offline, sweeps, step, run,
}
use mcp_coordinator.Agents.{register, heartbeat, set_offline}
use mcp_coordinator.Workflow.Outcome.{flow-Lives}
use mcp_coordinator.Lifecycle.{Life, Born, IsSound}
use mcp_coordinator.Lifecycle.Facts.{Life-IsSound, Born-IsSound, SameWork, Life-SameWork}
use mcp_coordinator.Lifecycle.Keys.{IsKeyed}
use mcp_coordinator.Lifecycle.Lives.{
  Lives, Moved, Added, within, Lives-same, Lives-refl, Lives-trans, Lives-weaken,
}
use mcp_coordinator.Lifecycle.Resolution.{
  propose-Lives, approve-Lives, contest-Lives, cancel-Lives, close-Lives,
}
use mcp_coordinator.Lifecycle.Opening.{announce-Lives, post-Lives}
use mcp_coordinator.Lifecycle.Sweeps.{departure-Lives, timeouts-Lives}
use mcp_coordinator.Lifecycle.Claims.{claim-Lives, unclaim-Lives}

-- The organisations whose threads a call may touch: the caller's, or all for the timeout sweep.
abbrev pub scope : Call → String → Bool
scope (announces org p) = within org
scope (posts org p) = within org
scope (proposes org id agent summary) = within org
scope (approves org id agent name) = within org
scope (contests org id agent reason) = within org
scope (cancels org id agent reason) = within org
scope (closes org id agent summary) = within org
scope (claims org id agent) = within org
scope (unclaims org id agent) = within org
scope (departs org agent) = within org
scope sweeps = λ _. true
scope (reviews id r) = within r.params.org_id
scope (registers org agent name modules) = within org
scope (beats org agent) = within org
scope (goes_offline org agent) = within org

module _ (utf16_length : String → ℕ) where
  step-Lives : (env : Env) (c : Call) (db : Db) → Lives (scope c) db (step utf16_length env c db)
  unfolding step register heartbeat set_offline
  step-Lives env (announces org p) db = announce-Lives env org p db
  step-Lives env (posts org p) db = post-Lives utf16_length env org p db
  step-Lives env (proposes org id agent summary) db = propose-Lives env org id agent summary db
  step-Lives env (approves org id agent name) db = approve-Lives env org id agent name db
  step-Lives env (contests org id agent reason) db = contest-Lives env org id agent reason db
  step-Lives env (cancels org id agent reason) db = cancel-Lives env org id agent reason db
  step-Lives env (closes org id agent summary) db = close-Lives env org id agent summary db
  step-Lives env (claims org id agent) db = claim-Lives env org id agent db
  step-Lives env (unclaims org id agent) db = unclaim-Lives org id agent db
  step-Lives env (departs org agent) db = departure-Lives env org agent db
  step-Lives env sweeps db = timeouts-Lives env db
  step-Lives env (reviews id r) db = flow-Lives env r id db
  step-Lives env (registers org agent name modules) db = Lives-same refl
  step-Lives env (beats org agent) db = Lives-same refl
  step-Lives env (goes_offline org agent) db = Lives-same refl

  run-Lives :
      (calls : List (Env × Call)) (db : Db) → Lives (λ _. true) db (run utf16_length calls db)
  unfolding run
  run-Lives [] db = Lives-refl
  run-Lives ((env, c) ∷ calls) db =
      Lives-trans (Lives-weaken (step-Lives env c db))
        (run-Lives calls (step utf16_length env c db))

-- The detailed methods and handlers implement the abstract life of a thread: where the ids of the
-- threads are distinct, after any history they are distinct, every thread that was there is there
-- still, moved by transitions, and every other was opened by announceWork and moved likewise.
pub run-refines :
    (utf16_length : String → ℕ) (calls : List (Env × Call)) (db : Db)
    → IsKeyed db.threads
    → IsKeyed (run utf16_length calls db).threads
      × Evolves Life Born db.threads (run utf16_length calls db).threads
run-refines utf16_length calls db k =
    let (k', e) = (run-Lives utf16_length calls db).at k in
    (k', Evolves-mono _ _ Life Born db.threads _ (λ x y m. m.life) (λ y a. a.born) e)

-- From an empty database, after any history, every thread has a round between 1 and its last one,
-- a resolved or cancelled thread has the time of its end, and a poisoned one was given up at least
-- twice.
pub run-IsSound :
    (utf16_length : String → ℕ) (calls : List (Env × Call))
    → All IsSound (run utf16_length calls initial).threads
run-IsSound utf16_length calls =
    let (k, e) = run-refines utf16_length calls initial tt in
    All-Evolves Life Born [] (run utf16_length calls initial).threads IsSound
      (λ x y l. Life-IsSound l) (λ y. Born-IsSound) tt e

-- Tenant isolation: where the ids are distinct, a call leaves every thread outside its scope, the
-- organisation of its caller, as it was, and opens threads only within it. (The scope of the
-- timeout sweep is every organisation.)
pub step_isolated :
    (utf16_length : String → ℕ) (env : Env) (c : Call) (db : Db)
    → IsKeyed db.threads
    → Evolves
        (λ x y. scope c x.org_id ≡ false → y ≡ x)
        (λ t. scope c t.org_id ≡ true)
        db.threads
        (step utf16_length env c db).threads
step_isolated utf16_length env c db k =
    Evolves-mono (Moved (scope c)) (Added (scope c)) _ _ db.threads _ (λ x y m. m.elsewhere)
      (λ t a. a.here) ((step-Lives utf16_length env c db).at k).1

-- Where the ids are distinct, no history removes a thread or rewrites what announceWork recorded
-- of it, its initiator, subject, plan, files, modules, exports, limits, assignee, run and time, but
-- for the expected respondents; its round never goes back, and each thread that is new is sound.
pub run-SameWork :
    (utf16_length : String → ℕ) (calls : List (Env × Call)) (db : Db)
    → IsKeyed db.threads
    → Evolves SameWork (λ t. IsSound t) db.threads (run utf16_length calls db).threads
run-SameWork utf16_length calls db k =
    Evolves-mono Life Born SameWork (λ t. IsSound t) db.threads _ (λ x y. Life-SameWork)
      (λ t. Born-IsSound) (run-refines utf16_length calls db k).1
