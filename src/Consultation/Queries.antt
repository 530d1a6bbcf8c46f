-- ===== src/Consultation/Queries.antt =====
-- Consultation: listThreads.
use mcp_coordinator.Prelude.{
  ℕ, String, Bool, true, false, not, ◌&&◌, ◌||◌, List, Option, none, some, ◌==◌, includes, select,
  or_null, equals, is_some,
}
use mcp_coordinator.Clock.{Timestamp, minutes_ago, text_lt}
use mcp_coordinator.Store.{
  Db, Thread, ThreadStatus, opened, resolving, resolved, cancelled, poisoned,
}

-- An absent filter is not applied; the source tests the texts for truth, so an empty one counts
-- as absent.
pub record Filters : Type 0 where
  pub status : Option ThreadStatus
  pub agent_id : Option String
  pub in_module : Option String
  pub assigned_to_me : Option String
  pub since_minutes : Option ℕ
  pub run_id : Option String

abbrev pub no_filters : Filters
no_filters = record {
  status = none;
  agent_id = none;
  in_module = none;
  assigned_to_me = none;
  since_minutes = none;
  run_id = none;
}

abbrev pub has_status : ThreadStatus → Thread → Bool
has_status opened t = elim t.status [ opened ↦ true | _ ↦ false ]
has_status resolving t = elim t.status [ resolving ↦ true | _ ↦ false ]
has_status resolved t = elim t.status [ resolved ↦ true | _ ↦ false ]
has_status cancelled t = elim t.status [ cancelled ↦ true | _ ↦ false ]
has_status poisoned t = elim t.status [ poisoned ↦ true | _ ↦ false ]

abbrev pub under {ℓ} : {A : Type ℓ} → Option A → (A → Bool) → Bool
under none p = true
under (some a) p = p a

abbrev pub null_or : Option String → String → Bool
null_or column s = not (is_some column) || equals column s

-- COALESCE(resolved_at, created_at)
abbrev pub last_moment : Thread → Timestamp
last_moment t = elim t.resolved_at [ none ↦ t.created_at | some r ↦ r ]

unfoldable pub matches : ℕ → String → Filters → Thread → Bool
matches now org f t =
    t.org_id == org
    && under f.status (λ s. has_status s t)
    && under (or_null f.agent_id) (λ a. t.initiator_id == a)
    && under (or_null f.in_module) (includes t.target_modules)
    && under (or_null f.assigned_to_me) (null_or t.assigned_to)
    && under (or_null f.run_id) (null_or t.run_id)
    && under f.since_minutes (λ m. text_lt (minutes_ago now m) (last_moment t))

-- The rows that the query selects; ORDER BY created_at DESC is left to the reader of the list.
unfoldable pub list_threads : ℕ → String → Filters → Db → List Thread
unfolding matches
list_threads now org f db = select (matches now org f) db.threads
