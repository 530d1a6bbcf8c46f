-- ===== src/Lifecycle/Facts.antt =====
-- What the transitions keep: the soundness of a row, and the columns that never change.
use mcp_coordinator.Prelude.{ℕ, ◌≤◌, ◌≡◌, arith}
use mcp_coordinator.Store.{Thread, ThreadStatus, opened, resolving, resolved, cancelled, poisoned}
use mcp_coordinator.Lifecycle.{
  Transition, propose, resolve, reopen, cancel, claim, release, poison, readdress, Life, stay, next,
  IsSound, Born, Stamped,
}

Stamped-more :
    (t : Thread) (count : ℕ)
    → t.unclaim_count ≤ count
    → Stamped t.status t.resolved_at t.unclaim_count
    → Stamped t.status t.resolved_at count
Stamped-more t count h s = go t.status s
  where
    go :
        (status : ThreadStatus)
        → Stamped status t.resolved_at t.unclaim_count
        → Stamped status t.resolved_at count
    go opened s = tt
    go resolving s = tt
    go resolved s = s
    go cancelled s = s
    go poisoned s = omega arith

Transition-IsSound : {x y : Thread} → Transition x y → IsSound x → IsSound y
Transition-IsSound (propose s e) h = rw e (ground arith)
Transition-IsSound (resolve s now a e) h = rw e (ground arith)
Transition-IsSound (reopen r room e) h = rw e (ground arith)
Transition-IsSound (cancel now e) h = rw e (ground arith)
Transition-IsSound (claim agent now o f e) h =
    rw e (record { started = h.started; within = h.within; finished = h.finished })
Transition-IsSound {x} (release count o more e) h = rw e (record {
  started = h.started;
  within = h.within;
  finished = Stamped-more x count more h.finished;
})
Transition-IsSound (poison o twice e) h = rw e (ground arith)
Transition-IsSound (readdress ids e) h =
    rw e (record { started = h.started; within = h.within; finished = h.finished })

pub Life-IsSound : {x y : Thread} → Life x y → IsSound x → IsSound y
Life-IsSound stay h = h
Life-IsSound (next l t) h = Transition-IsSound t (Life-IsSound l h)

pub Born-IsSound : {t : Thread} → Born t → IsSound t
Born-IsSound b = Life-IsSound b.life (record {
  started = omega (arith, b.new.first_round);
  within = omega (arith, b.new.first_round, b.new.rounds);
  finished = b.new.sound;
})

-- What announceWork records of a thread but for its respondents, whom the announce flow replaces;
-- the rounds only grow.
pub record SameWork (x y : Thread) : Type 0 where
  pub id : y.id ≡ x.id
  pub org_id : y.org_id ≡ x.org_id
  pub initiator_id : y.initiator_id ≡ x.initiator_id
  pub subject : y.subject ≡ x.subject
  pub plan : y.plan ≡ x.plan
  pub target_files : y.target_files ≡ x.target_files
  pub target_modules : y.target_modules ≡ x.target_modules
  pub depends_on_files : y.depends_on_files ≡ x.depends_on_files
  pub exports_affected : y.exports_affected ≡ x.exports_affected
  pub max_rounds : y.max_rounds ≡ x.max_rounds
  pub timeout_seconds : y.timeout_seconds ≡ x.timeout_seconds
  pub assigned_to : y.assigned_to ≡ x.assigned_to
  pub run_id : y.run_id ≡ x.run_id
  pub created_at : y.created_at ≡ x.created_at
  pub round : x.round ≤ y.round

Transition-SameWork : {x y : Thread} → Transition x y → SameWork x y
Transition-SameWork (propose s e) = rw e (ground arith)
Transition-SameWork (resolve s now a e) = rw e (ground arith)
Transition-SameWork (reopen r room e) = rw e (ground arith)
Transition-SameWork (cancel now e) = rw e (ground arith)
Transition-SameWork (claim agent now o f e) = rw e (ground arith)
Transition-SameWork (release count o more e) = rw e (ground arith)
Transition-SameWork (poison o twice e) = rw e (ground arith)
Transition-SameWork (readdress ids e) = rw e (ground arith)

pub Life-SameWork : {x y : Thread} → Life x y → SameWork x y
Life-SameWork {x} stay = ground arith
Life-SameWork (next l t) =
    let a = Life-SameWork l in let b = Transition-SameWork t in ground (arith, a, b)
