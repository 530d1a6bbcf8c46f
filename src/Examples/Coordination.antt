-- ===== src/Examples/Coordination.antt =====
-- The theorems on consultations and claims, applied to the databases of the fixtures.
use Prim.Native.String.{len}
use mcp_coordinator.Prelude.{
  any, ◌+◌, leb, ◌⊎◌, ◌≢◌, ◌≤◌, ◌≡◌, ◌↔◌, refl, String, true, false, [], All, none, some, head,
  tail, ap, sym, ◌∙◌, eq_iff, select, Memᴰ, arith,
}
use mcp_coordinator.Clock.{to_iso}
use mcp_coordinator.Table.{insert_row, update_where}
use mcp_coordinator.Table.Evolves.{Evolves}
use mcp_coordinator.Store.{
  keyed, Env, ThreadMessage, Thread, ResolutionEvent, initial, get_thread, resolved, consensus,
  opened,
}
use mcp_coordinator.Consultation.Exec.{ok, insert_message}
use mcp_coordinator.Consultation.Resolution.{
  post_resolution_message, all_respondents_approved, approve_resolution, contest_resolution,
}
use mcp_coordinator.Consultation.Quorum.{IsQuorum, approve_waits, approve_concludes, IsQuorum-exact}
use mcp_coordinator.Consultation.Sweeps.{handle_agent_departure, check_timeouts}
use mcp_coordinator.Consultation.Departure.{is_held_by, departure_releases}
use mcp_coordinator.Consultation.Timeouts.{Swept, timeouts_exact}
use mcp_coordinator.Consultation.Stale.{contest_voids}
use mcp_coordinator.Claims.Release.{given_up, unclaim_exact}
use mcp_coordinator.Claims.{
  ClaimConflict, handle_claim_task, handle_unclaim_task, success, refused, is_held,
}
use mcp_coordinator.Claims.Grant.{IsClaimable, IsBlocked, claim_exact}
use mcp_coordinator.Claims.Refusal.{Names, refusal_explained}
use mcp_coordinator.Claims.Exclusion.{IsExclusive, claim-IsExclusive}
use mcp_coordinator.Claims.Gap.{contest_breaks_exclusion}
use mcp_coordinator.Lifecycle.{Life, Born, IsSound}
use mcp_coordinator.Lifecycle.Facts.{SameWork}
use mcp_coordinator.Lifecycle.Keys.{IsKeyed}
use mcp_coordinator.History.{run, step, claims}
use mcp_coordinator.History.Safety.{scope, run-refines, run-IsSound, step_isolated, run-SameWork}
use mcp_coordinator.Examples.Fixtures.{
  env_at_noon, free_and_held, pending_and_held, one_pending, one_pending_voted, free_thread,
  held_thread, pending_thread, busy_day,
}

run-refines_example :
    IsKeyed (run len busy_day free_and_held).threads
    × Evolves Life Born free_and_held.threads (run len busy_day free_and_held).threads
run-refines_example = run-refines len busy_day free_and_held ((refl, tt), (tt, tt))

run-IsSound_example : All IsSound (run len busy_day initial).threads
run-IsSound_example = run-IsSound len busy_day

step_isolated_example :
    Evolves
      (λ x y. scope (claims "globex" "t-1" "bob") x.org_id ≡ false → y ≡ x)
      (λ t. scope (claims "globex" "t-1" "bob") t.org_id ≡ true)
      free_and_held.threads
      (step len env_at_noon (claims "globex" "t-1" "bob") free_and_held).threads
step_isolated_example =
    step_isolated len env_at_noon (claims "globex" "t-1" "bob") free_and_held ((refl, tt), (tt, tt))

run-SameWork_example :
    Evolves SameWork (λ t. IsSound t) free_and_held.threads (run len busy_day free_and_held).threads
run-SameWork_example = run-SameWork len busy_day free_and_held ((refl, tt), (tt, tt))

claim_exact_example :
    ((handle_claim_task env_at_noon "acme" "t-1" "alice" free_and_held).0 ≡ success)
    ↔ IsClaimable "alice" free_thread free_and_held.threads
claim_exact_example =
    claim_exact env_at_noon "acme" "t-1" "alice" free_and_held ((refl, tt), (tt, tt)) refl

-- Only `t-2` is held.
holder_id :
    {a : Thread} {by : String}
    → Memᴰ a free_and_held.threads
    → a.claimed_by ≡ some by
    → a.id ≡ "t-2"
holder_id (head e) h = absurd (cc (ap (λ (t : Thread). t.claimed_by) e, h))
holder_id (tail (head e)) h = ap (λ (t : Thread). t.id) e
holder_id (tail (tail m)) h = elim m [ ]

free_and_held-IsExclusive : IsExclusive free_and_held
free_and_held-IsExclusive a b m n c =
    let same = holder_id m c.held_a ∙ sym (holder_id n c.held_b) in
    absurd (cc ((eq_iff a.id b.id).1 same, c.apart))

blocked : IsBlocked "alice" free_thread free_and_held.threads
blocked = record {
  holder = held_thread;
  listed = tail (head refl);
  same_org = refl;
  other = refl;
  is_open = refl;
  held = refl;
  shared = refl;
}

refusal_explained_example :
    (c : ClaimConflict) × ((handle_claim_task env_at_noon "acme" "t-1" "alice" free_and_held).0
      ≡ refused none none (some opened) (some c))
    × Names free_thread.target_files (select (is_held "acme" "t-1" "alice") free_and_held.threads) c
refusal_explained_example =
    refusal_explained env_at_noon "acme" "t-1" "alice" free_and_held ((refl, tt), (tt, tt)) refl
      blocked

claim-IsExclusive_example :
    IsExclusive (handle_claim_task env_at_noon "acme" "t-1" "alice" free_and_held).1
claim-IsExclusive_example =
    claim-IsExclusive env_at_noon "acme" "t-1" "alice" free_and_held free_and_held-IsExclusive

-- Bob gives `t-2` up.
unclaim_exact_example :
    ((held_thread.claimed_by ≡ some "bob")
      × (held_thread.status ≡ opened)
      × (handle_unclaim_task "acme" "t-2" "bob" free_and_held ≡ (
        record { success = true; poisoned = leb 2 (held_thread.unclaim_count + 1) },
        record free_and_held {
          threads =
              update_where (keyed "acme" "t-2") (λ x. given_up held_thread) free_and_held.threads;
        },
      )))
    ⊎ (((held_thread.claimed_by ≢ some "bob") ⊎ (held_thread.status ≢ opened))
        × (handle_unclaim_task "acme" "t-2" "bob" free_and_held
            ≡ (record { success = false; poisoned = false }, free_and_held)))
unclaim_exact_example = unclaim_exact "acme" "t-2" "bob" free_and_held ((refl, tt), (tt, tt)) refl

contest_breaks_exclusion_example :
    ¬ IsExclusive (contest_resolution env_at_noon "acme" "t-1" "bob" "no" pending_and_held).1
unfolding post_resolution_message insert_message
contest_breaks_exclusion_example =
    contest_breaks_exclusion env_at_noon "acme" "t-1" "bob" "no" pending_and_held pending_thread
      held_thread "alice" "bob" ((refl, tt), (tt, tt)) refl refl (omega arith) (tail (head refl))
      refl refl refl refl refl refl refl

IsQuorum-exact_example :
    (all_respondents_approved "t-1" pending_thread (one_pending_voted "bob") ≡ true)
    ↔ IsQuorum "t-1" pending_thread (one_pending_voted "bob").messages
IsQuorum-exact_example = IsQuorum-exact "t-1" pending_thread (one_pending_voted "bob")

alice_alone : ¬ IsQuorum "t-1" pending_thread (one_pending_voted "alice").messages
unfolding all_respondents_approved
alice_alone q = cc ((IsQuorum-exact "t-1" pending_thread (one_pending_voted "alice")).1 q)

bob_agrees : IsQuorum "t-1" pending_thread (one_pending_voted "bob").messages
unfolding all_respondents_approved
bob_agrees = (IsQuorum-exact "t-1" pending_thread (one_pending_voted "bob")).0 refl

approve_waits_example :
    approve_resolution env_at_noon "acme" "t-1" "alice" none one_pending
    ≡ (ok tt, one_pending_voted "alice")
unfolding post_resolution_message insert_message
approve_waits_example =
    approve_waits env_at_noon "acme" "t-1" "alice" none one_pending pending_thread
      (one_pending_voted "alice") refl refl refl alice_alone

approve_concludes_example :
    let (reply, after) = approve_resolution env_at_noon "acme" "t-1" "bob" none one_pending in
    (reply ≡ ok tt)
    × (get_thread "acme" "t-1" after
        ≡ some (record pending_thread {
          status = resolved;
          resolved_at = some (to_iso env_at_noon.now);
        }))
    × (e : ResolutionEvent) × (after.resolutions ≡ insert_row e [])
    × (e.thread_id ≡ "t-1")
    × (e.resolution_type ≡ consensus)
    × (e.approved_by ≡ some "bob")
unfolding post_resolution_message insert_message
approve_concludes_example =
    approve_concludes env_at_noon "acme" "t-1" "bob" none one_pending pending_thread
      (one_pending_voted "bob") refl refl refl bob_agrees

-- A quarter of an hour after noon the announcement of `t-1` is overdue.
abbrev later : Env
later = record { now = 1728044100000; uuid = "m-8" }

timeouts_exact_example :
    Evolves
      (Swept later.now)
      (λ t. ⊥)
      free_and_held.threads
      (check_timeouts later free_and_held).threads
timeouts_exact_example = timeouts_exact later free_and_held

no_later_round :
    (m : ThreadMessage)
    → Memᴰ m (one_pending_voted "bob").messages
    → m.thread_id ≡ "t-1"
    → m.round ≤ pending_thread.round
no_later_round m (head e) h = let same = ap (λ (x : ThreadMessage). x.round) e in omega arith
no_later_round m (tail n) h = elim n [ ]

contest_voids_example :
    let after =
      (contest_resolution later "acme" "t-1" "bob" "not yet" (one_pending_voted "bob")).1 in
    (u : Thread) × (get_thread "acme" "t-1" after ≡ some u)
    × (u.round ≡ 2)
    × (all_respondents_approved "t-1" u after ≡ false)
unfolding post_resolution_message insert_message
contest_voids_example =
    contest_voids later "acme" "t-1" "bob" "not yet" (one_pending_voted "bob") pending_thread "bob"
      refl refl (omega arith) refl no_later_round (head refl)

departure_releases_example :
    any (is_held_by "acme" "bob") (handle_agent_departure later "acme" "bob" free_and_held).threads
    ≡ false
departure_releases_example = departure_releases later "acme" "bob" free_and_held
