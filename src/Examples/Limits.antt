-- ===== src/Examples/Limits.antt =====
-- The theorems on the rate limiter, the state of a sign-in and the device flow, applied.
use mcp_coordinator.Prelude.{
  ◌+◌, ◌-◌, ◌*◌, ◌≤◌, ◌≡◌, ◌≢◌, refl, true, Memᴰ, head, tail, none, some, List, [], ◌∷◌, arith,
}
use mcp_coordinator.RateLimit.{check, Bucket, default_lockout, is_locked, record_failed_login, full}
use mcp_coordinator.RateLimit.Budget.{is_locked-record_failed_login}
use mcp_coordinator.RateLimit.Window.{Event, visit, tick, admitted, admitted_bound, end_of}
use mcp_coordinator.OauthState.{OauthStateRow, new_state, consume_oauth_state, inspect_oauth_state}
use mcp_coordinator.OauthState.Once as Once
use mcp_coordinator.DeviceFlow.{
  DeviceRequest, DeviceDb, lockout, has_user_code, handle_device_approve, poll,
}
use mcp_coordinator.DeviceFlow.Decisions as Decisions
use mcp_coordinator.DeviceFlow.Decisions.{request_of, decision_final}
use mcp_coordinator.DeviceFlow.Decisions.Lockout.{IsClear, lockout_unreachable}

abbrev attempts : List Event
attempts = visit "ann" 10 ∷ visit "bob" 11 ∷ tick 12 ∷ visit "ann" 70 ∷ []

admitted_bound_example :
    admitted (λ key. default_lockout) "ann" attempts [] * 900
    ≤ default_lockout.per * 900 + (end_of 10 attempts - 10) * default_lockout.per
admitted_bound_example =
    admitted_bound (λ key. default_lockout) "ann" 10 attempts
      (omega arith, (omega arith, (omega arith, (omega arith, tt))))

-- A bucket with one failure counted.
abbrev bucket : Bucket
bucket = record (full default_lockout "lockout:ann" 10) { tokens = 3600 }

is_locked-record_failed_login_example :
    is_locked "ann" default_lockout 20 (bucket ∷ [])
    ≡ (record_failed_login "ann" default_lockout 20 (bucket ∷ [])).0
is_locked-record_failed_login_example =
    is_locked-record_failed_login "ann" default_lockout 20 (bucket ∷ []) (omega arith)

abbrev sign_in : List OauthStateRow
sign_in = new_state 100 "s" "v" "github" "/" none ∷ []

consume_once_example :
    let after = Once.run (Once.Event.purge 150 ∷ []) (consume_oauth_state 120 "s" sign_in).1 in
    ((consume_oauth_state 160 "s" after).0 ≡ none) × (inspect_oauth_state 160 "s" after ≢ none)
consume_once_example =
    Once.consume_once "s" 120 sign_in (Once.Event.purge 150 ∷ []) 160 (tt, tt) (omega arith)

abbrev request : DeviceRequest
request = record {
  device_code = "d";
  user_code = "BCDF-GHJK";
  approved_user_id = none;
  approved_at = none;
  denied_at = none;
  denied_reason = none;
  expires_at = 700;
  failed_approval_attempts = 0;
  last_polled_at = none;
  interval = 5;
}

abbrev approved_request : DeviceRequest
approved_request = record request { approved_user_id = some "ann"; approved_at = some 100 }

abbrev device_db : DeviceRequest → DeviceDb
device_db r = record { requests = r ∷ []; buckets = []; audits = [] }

-- Bob denies, and the device asks.
abbrev later_events : List Decisions.Event
later_events =
    Decisions.Event.submit 200 "bob" (some "BCDF-GHJK") (some "deny") (some "t") (some "t")
    ∷ Decisions.Event.knock 210 "d"
    ∷ []

-- The request as the device's poll leaves it.
abbrev asked_request : DeviceRequest
asked_request = record approved_request { last_polled_at = some 210 }

only_one :
    (x : DeviceRequest)
    → Memᴰ x (device_db approved_request).requests
    → has_user_code "BCDF-GHJK" x ≡ true
    → x ≡ approved_request
only_one x (head e) h = e
only_one x (tail m) h = elim m [ ]

decision_final_example :
    (asked_request.approved_user_id ≡ approved_request.approved_user_id)
    × (asked_request.denied_at ≡ approved_request.denied_at)
unfolding Decisions.step handle_device_approve poll check
decision_final_example =
    decision_final "BCDF-GHJK" approved_request (device_db approved_request) later_events
      asked_request refl only_one refl

lockout_unreachable_example :
    ((handle_device_approve 220 "bob"
        (some "BCDF-GHJK")
        (some "approve")
        (some "t")
        (some "t")
        (Decisions.run later_events (device_db request))).0
      ≢ lockout)
    × IsClear (Decisions.run later_events (device_db request))
lockout_unreachable_example =
    lockout_unreachable later_events 220 "bob" (some "BCDF-GHJK") (some "approve") (some "t")
      (some "t") (device_db request) (refl, tt)
