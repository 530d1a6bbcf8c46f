-- ===== src/DeviceFlow.antt =====
-- The device flow: handleDeviceApprove and handleApproveFailure of src/auth/device-flow.ts, and the
-- poll of src/auth/oauth-token.ts; Grant is what follows an approval. The caller's authentication and the reading of
-- the form are done before; the rate limits are those of RateLimit.
pub mod Grant
pub mod Polls
pub mod Decisions
use Prim.Native.String.{◌++◌}
use mcp_coordinator.Prelude.{
  ℕ, ◌+◌, ◌-◌, String, Bool, true, false, ◌&&◌, ◌||◌, not, Option, none, some, List, ◌==◌, any,
  is_some, or_null, equals, ltb, leb, if◌then◌else◌,
}
use mcp_coordinator.Table.{find_row, update_where, insert_row}
use mcp_coordinator.RateLimit.{Config, Bucket, Result, allowed, denied, check}

pub data DeniedReason : Type 0 where
  user_denied : DeniedReason
  too_many_failed_approvals : DeniedReason

-- A row of device_auth_requests.
pub record DeviceRequest : Type 0 where
  pub device_code : String
  pub user_code : String
  pub approved_user_id : Option String
  pub approved_at : Option ℕ
  pub denied_at : Option ℕ
  pub denied_reason : Option DeniedReason
  pub expires_at : ℕ
  pub failed_approval_attempts : ℕ
  pub last_polled_at : Option ℕ
  pub interval : ℕ

pub data DeviceAudit : Type 0 where
  device_approved : String → DeviceAudit
  -- by whom, and whether by the lockout
  device_denied : String → Bool → DeviceAudit
  csrf_failed : String → DeviceAudit
  -- auth.login.success of a device: the user and the family
  device_login : String → String → DeviceAudit

pub record DeviceDb : Type 0 where
  pub requests : List DeviceRequest
  pub buckets : List Bucket
  pub audits : List DeviceAudit

-- The responses: the redirects by what they say, and the errors.
pub data Reply : Type 0 where
  approved : Reply
  denied_status : Reply
  invalid_code : Reply
  expired : Reply
  consumed : Reply
  lockout : Reply
  missing_field : Reply
  invalid_action : Reply
  forbidden : Reply
  limited : ℕ → Reply

abbrev pub approve_failure_threshold : ℕ
approve_failure_threshold = 5

abbrev pub approve_rate_per_min : Config
approve_rate_per_min = record { per = 10; window_seconds = 60 }

abbrev pub approve_rate_per_hour : Config
approve_rate_per_hour = record { per = 20; window_seconds = 3600 }

abbrev pub has_user_code : String → DeviceRequest → Bool
has_user_code code r = r.user_code == code

-- approved_user_id IS NULL AND denied_at IS NULL
abbrev pub is_undecided : DeviceRequest → Bool
is_undecided r = not (is_some r.approved_user_id) && not (is_some r.denied_at)

abbrev pub is_pending : ℕ → String → DeviceRequest → Bool
is_pending now code r = has_user_code code r && is_undecided r && ltb now r.expires_at

abbrev pub is_approvable : ℕ → String → DeviceRequest → Bool
is_approvable now code r =
    is_pending now code r && ltb r.failed_approval_attempts approve_failure_threshold

abbrev pub set_requests :
    (DeviceRequest → Bool) → (DeviceRequest → DeviceRequest) → DeviceDb → DeviceDb
set_requests p f db = record db { requests = update_where p f db.requests }

abbrev pub tell : DeviceAudit → DeviceDb → DeviceDb
tell e db = record db { audits = insert_row e db.audits }

abbrev pub grant_to : String → ℕ → DeviceRequest → DeviceRequest
grant_to user now r = record r { approved_user_id = some user; approved_at = some now }

abbrev pub refuse : ℕ → DeniedReason → DeviceRequest → DeviceRequest
refuse now why r = record r { denied_at = some now; denied_reason = some why }

abbrev pub count_failure : DeviceRequest → DeviceRequest
count_failure r = record r { failed_approval_attempts = r.failed_approval_attempts + 1 }

-- The row is live and undecided: the failure is counted, and at the threshold the row is locked.
unfoldable pub penalise : ℕ → String → String → DeviceRequest → DeviceDb → Reply × DeviceDb
penalise now code user row db =
    let counted = set_requests (has_user_code code) count_failure db in
    if leb approve_failure_threshold (row.failed_approval_attempts + 1)
    then (
      lockout,
      tell (device_denied user true)
          (set_requests (has_user_code code) (refuse now too_many_failed_approvals) counted),
    )
    else (consumed, counted)

-- Why the approval matched no row.
unfoldable pub explain_failure :
    ℕ → String → String → Option DeviceRequest → DeviceDb → Reply × DeviceDb
unfolding penalise
explain_failure now code user none db = (invalid_code, db)
explain_failure now code user (some row) db =
    if leb row.expires_at now
    then (expired, db)
    else if is_some row.approved_user_id || is_some row.denied_at
    then (consumed, db)
    else penalise now code user row db

unfoldable pub handle_approve_failure : ℕ → String → String → DeviceDb → Reply × DeviceDb
unfolding explain_failure
handle_approve_failure now code user db =
    explain_failure now code user (find_row (has_user_code code) db.requests) db

-- The UPDATE … RETURNING of an approval, and what follows where it matches no row.
unfoldable pub approve : ℕ → String → String → DeviceDb → Reply × DeviceDb
unfolding handle_approve_failure
approve now code user db =
    if any (is_approvable now code) db.requests
    then (
      approved,
      tell (device_approved user) (set_requests (is_approvable now code) (grant_to user now) db),
    )
    else handle_approve_failure now code user db

unfoldable pub deny : ℕ → String → String → DeviceDb → Reply × DeviceDb
deny now code user db =
    let refused = set_requests (is_pending now code) (refuse now user_denied) db in
    (
      denied_status,
      if any (is_pending now code) db.requests
          then tell (device_denied user false) refused
          else refused,
    )

unfoldable pub decide : ℕ → String → String → String → DeviceDb → Reply × DeviceDb
unfolding approve deny
decide now code user action db =
    if action == "approve"
    then approve now code user db
    else if action == "deny"
    then deny now code user db
    else (invalid_action, db)

-- verifyCsrfToken: both are there and the same.
abbrev pub verify_csrf_token : Option String → Option String → Bool
verify_csrf_token cookie none = false
verify_csrf_token cookie (some form) = not (form == "") && equals cookie form

-- A rate limit, and then the rest of the handler.
unfoldable pub limited_by :
    String → Config → ℕ → (DeviceDb → Reply × DeviceDb) → DeviceDb → Reply × DeviceDb
limited_by key cfg now rest db =
    let (answer, buckets) = check key cfg now db.buckets in
    let db' = record db { buckets = buckets } in
    elim answer [ allowed remaining reset_at ↦ rest db' | denied seconds ↦ (limited seconds, db') ]

unfoldable pub past_csrf : ℕ → String → String → String → Bool → DeviceDb → Reply × DeviceDb
unfolding decide
past_csrf now user code action valid db =
    if valid then decide now code user action db else (forbidden, tell (csrf_failed user) db)

-- From the form's user_code, action and _csrf, and the cookie.
unfoldable pub handle_device_approve :
    ℕ
    → String
    → Option String
    → Option String
    → Option String
    → Option String
    → DeviceDb
    → Reply × DeviceDb
unfolding limited_by past_csrf
handle_device_approve now user code action form cookie db = elim (or_null code) [
  | none ↦ (missing_field, db)
  | some c ↦ elim (or_null action) [
    | none ↦ (missing_field, db)
    | some a ↦
        limited_by ("device-approve-min:" ++ user) approve_rate_per_min now
          (limited_by ("device-approve-hour:" ++ user) approve_rate_per_hour now
            (past_csrf now user c a (verify_csrf_token cookie form)))
          db
  ]
]

pub data Poll : Type 0 where
  unknown_device : Poll
  slow_down : ℕ → Poll
  expired_token : Poll
  access_denied : Poll
  authorization_pending : Poll
  -- approved, by whom
  ready : String → Poll

abbrev pub has_device_code : String → DeviceRequest → Bool
has_device_code code r = r.device_code == code

-- last_polled_at IS NULL OR (? - last_polled_at) >= interval
abbrev pub may_poll : ℕ → String → DeviceRequest → Bool
may_poll now code r =
    has_device_code code r
    && elim r.last_polled_at [ none ↦ true | some t ↦ leb (t + r.interval) now ]

abbrev pub polled : ℕ → DeviceRequest → DeviceRequest
polled now r = record r { last_polled_at = some now }

abbrev pub poll_verdict : ℕ → DeviceRequest → Poll
poll_verdict now r =
    if leb r.expires_at now
    then expired_token
    else if is_some r.denied_at
    then access_denied
    else elim r.approved_user_id [ none ↦ authorization_pending | some user ↦ ready user ]

abbrev pub unmatched : Option DeviceRequest → Poll
unmatched none = unknown_device
unmatched (some r) = slow_down r.interval

abbrev pub judged : ℕ → Option DeviceRequest → Option DeviceRequest → Poll
judged now none there = unmatched there
judged now (some r) there = poll_verdict now r

unfoldable pub poll : ℕ → String → List DeviceRequest → Poll × List DeviceRequest
poll now code rows = (
  judged now (find_row (may_poll now code) rows) (find_row (has_device_code code) rows),
  update_where (may_poll now code) (polled now) rows,
)
