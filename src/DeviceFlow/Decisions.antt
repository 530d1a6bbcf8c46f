-- ===== src/DeviceFlow/Decisions.antt =====
-- The decision on a device: src/auth/device-flow.ts, with the polls of src/auth/oauth-token.ts.
pub mod Lockout
use Prim.Native.String.{◌++◌}
use mcp_coordinator.Prelude.{
  ℕ, ◌+◌, String, ◌≡◌, refl, sym, ap, ◌∙◌, inl, inr, Bool, true, false, not, ◌&&◌, ◌||◌, Option,
  none, some, select, All, All-Mem, All-of_Mem, Memᴰ, List, [], ◌∷◌, ◌==◌, eq_iff, any, is_some,
  or_null, if◌then◌else◌, ltb, leb, arith, Bool-cases, Option-cases,
}
use mcp_coordinator.Table.{find_row, find_row-Mem, find_row-update_where, update_where}
use mcp_coordinator.Auth.State.{AuthDb, Context, User}
use mcp_coordinator.Auth.Steps.{Answer, done, reply, thrown}
use mcp_coordinator.Auth.Epoch.{has_id}
use mcp_coordinator.Auth.Mint.{MintedPair, mint_token_pair}
use mcp_coordinator.DeviceFlow.Grant.{
  handle_device_code_grant, finish_device_grant, grant_minted, grant_polled, grant_approved,
  device_options,
}
use mcp_coordinator.DeviceFlow.Polls.{
  Agrees, Stands, Stands-set_requests, Stands-select, Stands-polled, Stands-ask,
}
use mcp_coordinator.RateLimit.{Config, check, Result, allowed, denied}
use mcp_coordinator.DeviceFlow.{
  Poll, unknown_device, slow_down, expired_token, access_denied, authorization_pending, ready,
  DeviceRequest, DeviceDb, DeniedReason, user_denied, too_many_failed_approvals, Reply,
  has_user_code, has_device_code, is_undecided, is_pending, is_approvable, set_requests, grant_to,
  refuse, count_failure, penalise, explain_failure, handle_approve_failure, approve, deny, decide,
  limited_by, past_csrf, handle_device_approve, poll, may_poll, polled, verify_csrf_token,
  approve_rate_per_min, approve_rate_per_hour, limited,
}

-- A form that a user submits, a poll of the device over any state of the tables of sessions, the part
-- of a poll up to the minting, or the part from there on.
pub data Event : Type 0 where
  submit : ℕ → String → Option String → Option String → Option String → Option String → Event
  ask : Context → Option String → AuthDb → Event
  knock : ℕ → String → Event
  finish : String → User → MintedPair → Event

unfoldable pub step : Event → DeviceDb → DeviceDb
step (submit now user code action form cookie) db =
    (handle_device_approve now user code action form cookie db).1
step (ask ctx device auth) db = (handle_device_code_grant ctx device auth db).2
step (finish device user pair) db = finish_device_grant device user pair db
step (knock now device) db = record db { requests = (poll now device db.requests).1 }

abbrev pub run : List Event → DeviceDb → DeviceDb
run [] db = db
run (e ∷ es) db = run es (step e db)

abbrev pub request_of : String → DeviceDb → Option DeviceRequest
request_of code db = find_row (has_user_code code) db.requests

module _ (code : String) (r : DeviceRequest) (decided : is_undecided r ≡ false) where
  apart :
      (other : String) (x : DeviceRequest)
      → (other == code) ≡ false
      → has_user_code code x ≡ true
      → has_user_code other x ≡ false
  apart other x e h = elim (Bool-cases (has_user_code other x)) [
    | inr f ↦ f
    | inl f ↦ absurd (
        cc (
          e,
          (eq_iff other code).1
              (sym ((eq_iff x.user_code other).0 f) ∙ (eq_iff x.user_code code).0 h),
        ))
  ]

  Stands-penalise :
      (now : ℕ) (other user : String) (row : DeviceRequest) (db : DeviceDb)
      → (other == code) ≡ false
      → Stands code r db
      → Stands code r (penalise now other user row db).1
  unfolding penalise
  Stands-penalise now other user row db e st =
      let counted =
        Stands-set_requests code r decided (has_user_code other) count_failure db (λ x. refl)
          (λ x h u p. absurd (cc (p, apart other x e h))) st in
      let locked =
        Stands-set_requests code r decided (has_user_code other)
          (refuse now too_many_failed_approvals)
          (set_requests (has_user_code other) count_failure db) (λ x. refl)
          (λ x h u p. absurd (cc (p, apart other x e h))) counted in
      elim (Bool-cases (leb 5 (row.failed_approval_attempts + 1))) [
        | inl f ↦ rw (f, penalise) locked
        | inr f ↦ rw (f, penalise) counted
      ]

  Stands-handle_approve_failure :
      (now : ℕ) (other user : String) (db : DeviceDb)
      → Stands code r db
      → Stands code r (handle_approve_failure now other user db).1
  unfolding handle_approve_failure explain_failure
  Stands-handle_approve_failure now other user db st =
      elim (Option-cases (find_row (has_user_code other) db.requests)) [
        | inl f ↦ rw (f, handle_approve_failure) st
        | inr (row, f) ↦ elim (Bool-cases (leb row.expires_at now)) [
          | inl g ↦ rw (f, g, handle_approve_failure) st
          | inr g ↦ elim (Bool-cases (is_some row.approved_user_id || is_some row.denied_at)) [
            | inl h ↦ rw (f, g, h, handle_approve_failure) st
            | inr h ↦
                rw (f, g, h, handle_approve_failure)
                  (Stands-penalise now other user row db (elsewhere row f h) st)
          ]
        ]
      ]
    where
      elsewhere :
          (row : DeviceRequest)
          → find_row (has_user_code other) db.requests ≡ some row
          → (is_some row.approved_user_id || is_some row.denied_at) ≡ false
          → (other == code) ≡ false
      elsewhere row f h = elim (Bool-cases (other == code)) [
        | inr e ↦ e
        | inl e ↦
            let (m, hit) = find_row-Mem (has_user_code other) db.requests f in
            let mine : has_user_code code row ≡ true =
              ap (λ c. has_user_code c row) (sym ((eq_iff other code).0 e)) ∙ hit in
            let (a, d) = All-Mem (Agrees code r) st m mine in
            let open_still : is_undecided row ≡ true = ground (arith, h) in
            let closed : is_undecided row ≡ false = rw (a, d) decided in
            absurd (cc (open_still, closed))
      ]

  Stands-approve :
      (now : ℕ) (other user : String) (db : DeviceDb)
      → Stands code r db
      → Stands code r (approve now other user db).1
  unfolding approve
  Stands-approve now other user db st =
      elim (Bool-cases (any (is_approvable now other) db.requests)) [
        | inl e ↦
            rw (e, approve)
              (Stands-set_requests code r decided (is_approvable now other) (grant_to user now) db
                (λ x. refl) (λ x h u p. absurd (ground (arith, u, p))) st)
        | inr e ↦ rw (e, approve) (Stands-handle_approve_failure now other user db st)
      ]

  Stands-deny :
      (now : ℕ) (other user : String) (db : DeviceDb)
      → Stands code r db
      → Stands code r (deny now other user db).1
  unfolding deny
  Stands-deny now other user db st =
      let refused =
        Stands-set_requests code r decided (is_pending now other) (refuse now user_denied) db
          (λ x. refl) (λ x h u p. absurd (ground (arith, u, p))) st in
      elim (Bool-cases (any (is_pending now other) db.requests)) [
        | inl e ↦ rw (e, deny) refused
        | inr e ↦ rw (e, deny) refused
      ]

  Stands-past_csrf :
      (now : ℕ) (user other action : String) (valid : Bool) (db : DeviceDb)
      → Stands code r db
      → Stands code r (past_csrf now user other action valid db).1
  unfolding past_csrf decide
  Stands-past_csrf now user other action valid db st = elim (Bool-cases valid) [
    | inr e ↦ rw (e, past_csrf) st
    | inl e ↦ elim (Bool-cases (action == "approve")) [
      | inl f ↦ rw (e, f, past_csrf, decide) (Stands-approve now other user db st)
      | inr f ↦ elim (Bool-cases (action == "deny")) [
        | inl g ↦ rw (e, f, g, past_csrf, decide) (Stands-deny now other user db st)
        | inr g ↦ rw (e, f, g, past_csrf, decide) st
      ]
    ]
  ]

  Stands-limited_by :
      (key : String) (cfg : Config) (now : ℕ) (rest : DeviceDb → Reply × DeviceDb) (db : DeviceDb)
      → ((d : DeviceDb) → Stands code r d → Stands code r (rest d).1)
      → Stands code r db
      → Stands code r (limited_by key cfg now rest db).1
  unfolding limited_by
  Stands-limited_by key cfg now rest db h st = answered (check key cfg now db.buckets).0
    where
      after : DeviceDb
      after = record db { buckets = (check key cfg now db.buckets).1 }

      answered :
          (a : Result)
          → Stands code r
              (elim a as (λ x. Reply × DeviceDb) [
                | allowed remaining reset_at ↦ rest after
                | denied seconds ↦ (limited seconds, after)
              ]).1
      answered (allowed remaining reset_at) = h after st
      answered (denied seconds) = st

  Stands-step : (e : Event) (db : DeviceDb) → Stands code r db → Stands code r (step e db)
  unfolding step handle_device_approve finish_device_grant
  Stands-step (ask ctx device auth) db st = Stands-ask code r decided ctx device auth db st
  Stands-step (knock now device) db st = Stands-polled code r decided now device db.requests st
  Stands-step (finish device u pair) db st =
      Stands-select code r decided (λ (x : DeviceRequest). not (has_device_code device x))
        db.requests st
  Stands-step (submit now user other action form cookie) db st =
      let valid = verify_csrf_token cookie form in
      elim (Option-cases (or_null other)) [
        | inl e ↦ rw (e, step, handle_device_approve) st
        | inr (c, e) ↦ elim (Option-cases (or_null action)) [
          | inl f ↦ rw (e, f, step, handle_device_approve) st
          | inr (a, f) ↦
              let hourly = past_csrf now user c a valid in
              let rest =
                limited_by ("device-approve-hour:" ++ user) approve_rate_per_hour now hourly in
              rw (e, f, step, handle_device_approve)
                (Stands-limited_by ("device-approve-min:" ++ user) approve_rate_per_min now rest db
                  (λ d k.
                    Stands-limited_by ("device-approve-hour:" ++ user) approve_rate_per_hour now
                      hourly d (λ d' k'. Stands-past_csrf now user c a valid d' k') k)
                  st)
        ]
      ]

  Stands-run : (es : List Event) (db : DeviceDb) → Stands code r db → Stands code r (run es db)
  Stands-run [] db st = st
  Stands-run (e ∷ es) db st = Stands-run es (step e db) (Stands-step e db st)

-- A decision on a device's request is final: once it has been approved or denied, no form that any
-- user submits and no poll, whole or cut at the minting, changes whom it is approved for, or whether
-- it is denied: what is there under its code afterwards, if it has not been deleted, still says so.
-- (A user code names one request.)
pub decision_final :
    (code : String) (r : DeviceRequest) (db : DeviceDb) (es : List Event) (s : DeviceRequest)
    → is_undecided r ≡ false
    → ((x : DeviceRequest) → Memᴰ x db.requests → has_user_code code x ≡ true → x ≡ r)
    → request_of code (run es db) ≡ some s
    → (s.approved_user_id ≡ r.approved_user_id) × (s.denied_at ≡ r.denied_at)
decision_final code r db es s decided one found =
    let before : Stands code r db = All-of_Mem (Agrees code r) db.requests (λ x m h.
      let e = one x m h in
      (
        ap (λ (y : DeviceRequest). y.approved_user_id) e,
        ap (λ (y : DeviceRequest). y.denied_at) e,
      )) in
    let (m, hit) = find_row-Mem (has_user_code code) (run es db).requests found in
    All-Mem (Agrees code r) (Stands-run code r decided es db before) m hit
