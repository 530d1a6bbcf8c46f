-- ===== src/Lifecycle.antt =====
-- The life of a consultation thread, as an abstract machine on one row: what the methods of
-- src/consultation.ts and the handlers of src/http/rest-handlers.ts may do to it.
pub mod Keys
pub mod Lives
pub mod Resolution
pub mod Opening
pub mod Sweeps
pub mod Claims
pub mod Facts
use mcp_coordinator.Prelude.{
  ℕ, suc, ◌+◌, ◌≤◌, ◌≡◌, refl, String, Bool, true, List, Option, none, some, is_some,
}
use mcp_coordinator.Clock.{Timestamp}
use mcp_coordinator.Store.{
  Thread, ThreadStatus, opened, resolving, resolved, cancelled, poisoned, is_opened, is_resolving,
  is_active,
}

pub data Transition (x y : Thread) : Type 0 where
  -- a resolution is proposed
  propose :
      (summary : String)
      → y ≡ record x { status = resolving; resolution_summary = some summary }
      → Transition x y
  -- consensus, timeout, last round, departure or an explicit close
  resolve :
      (summary : Option String) (now : Timestamp)
      → is_active x ≡ true
      → y ≡ record x { status = resolved; resolution_summary = summary; resolved_at = some now }
      → Transition x y
  -- a contested resolution starts the next round
  reopen :
      is_resolving x ≡ true
      → x.round + 1 ≤ x.max_rounds
      → y ≡ record x { status = opened; round = x.round + 1; resolution_summary = none }
      → Transition x y
  cancel :
      (now : Timestamp)
      → y ≡ record x { status = cancelled; resolved_at = some now }
      → Transition x y
  claim :
      (agent : String) (now : Timestamp)
      → is_opened x ≡ true
      → x.claimed_by ≡ none
      → y ≡ record x { claimed_by = some agent; claimed_at = some now }
      → Transition x y
  -- the claim is given up, with or without being counted
  release :
      (count : ℕ)
      → is_opened x ≡ true
      → x.unclaim_count ≤ count
      → y ≡ record x { claimed_by = none; claimed_at = none; unclaim_count = count }
      → Transition x y
  poison :
      is_opened x ≡ true → 2 ≤ x.unclaim_count → y ≡ record x { status = poisoned } → Transition x y
  -- the set of agents whose approval is awaited is written anew
  readdress : (ids : List String) → y ≡ record x { expected_respondents = ids } → Transition x y

-- Any number of transitions.
pub data Life (x : Thread) : Thread → Type 0 where
  stay : Life x x
  next : {y z : Thread} → Life x y → Transition y z → Life x z

pub once : {x y : Thread} → Transition x y → Life x y
once t = next stay t

pub Life-trans : {x y z : Thread} → Life x y → Life y z → Life x z
Life-trans l stay = l
Life-trans l (next m t) = next (Life-trans l m) t

-- A finished thread says when it finished, and a poisoned one was given up twice.
abbrev pub Stamped : ThreadStatus → Option Timestamp → ℕ → Type 0
Stamped opened at count = Unit
Stamped resolving at count = Unit
Stamped resolved at count = is_some at ≡ true
Stamped cancelled at count = is_some at ≡ true
Stamped poisoned at count = 2 ≤ count

-- What holds of every thread at every moment.
pub record IsSound (t : Thread) : Type 0 where
  pub started : 1 ≤ t.round
  pub within : t.round ≤ t.max_rounds
  pub finished : Stamped t.status t.resolved_at t.unclaim_count

-- A thread as announceWork inserts it.
pub record IsNew (t : Thread) : Type 0 where
  pub first_round : t.round ≡ 1
  pub rounds : t.max_rounds ≡ 4
  pub sound : Stamped t.status t.resolved_at t.unclaim_count

-- A row that was added and has since lived.
pub record Born (y : Thread) : Type 0 where
  pub first : Thread
  pub new : IsNew first
  pub life : Life first y

pub Born-Life : (y z : Thread) → Born y → Life y z → Born z
Born-Life y z b l = record { first = b.first; new = b.new; life = Life-trans b.life l }
