-- ===== src/DeviceFlow/Decisions/Lockout.antt =====
-- The count of failed approvals: handleApproveFailure of src/auth/device-flow.ts.
use Prim.Native.String.{◌++◌}
use mcp_coordinator.Prelude.{
  ℕ, String, ◌≡◌, ◌≢◌, refl, ◌∙◌, inl, inr, Bool, true, false, ◌||◌, Option, not, select, List, [],
  ◌∷◌, ◌==◌, any, any_of_Mem, All, All-Mem, is_some, or_null, if◌then◌else◌, leb, arith, Bool-cases,
  Option-cases,
}
use mcp_coordinator.Table.{find_row, find_row-Mem, update_where}
use mcp_coordinator.RateLimit.{Config, check, Result, allowed, denied}
use mcp_coordinator.Auth.State.{AuthDb, Context, User}
use mcp_coordinator.Auth.Steps.{Answer, done, reply, thrown}
use mcp_coordinator.Auth.Epoch.{has_id}
use mcp_coordinator.Auth.Mint.{MintedPair, mint_token_pair}
use mcp_coordinator.DeviceFlow.Grant.{
  handle_device_code_grant, finish_device_grant, grant_minted, grant_polled, grant_approved,
  device_options,
}
use mcp_coordinator.DeviceFlow.{
  Poll, unknown_device, slow_down, expired_token, access_denied, authorization_pending, ready,
  has_device_code, DeviceRequest, DeviceDb, Reply, lockout, limited, user_denied, has_user_code,
  is_pending, is_approvable, grant_to, refuse, handle_approve_failure, explain_failure, approve,
  deny, decide, limited_by, past_csrf, handle_device_approve, poll, may_poll, polled,
  verify_csrf_token, approve_rate_per_min, approve_rate_per_hour,
}
use mcp_coordinator.DeviceFlow.Decisions.{Event, submit, ask, knock, finish, step, run}

-- No failed approval has been counted, as when the request was inserted.
abbrev pub IsClear : DeviceDb → Type 0
IsClear db = All (λ (r : DeviceRequest). r.failed_approval_attempts ≡ 0) db.requests

abbrev Uncounted : Reply × DeviceDb → Type 0
Uncounted r = (r.0 ≢ lockout) × IsClear r.1

IsClear-update :
    (p : DeviceRequest → Bool) (f : DeviceRequest → DeviceRequest) (xs : List DeviceRequest)
    → ((x : DeviceRequest) → (f x).failed_approval_attempts ≡ x.failed_approval_attempts)
    → All (λ (r : DeviceRequest). r.failed_approval_attempts ≡ 0) xs
    → All (λ (r : DeviceRequest). r.failed_approval_attempts ≡ 0) (update_where p f xs)
IsClear-update p f [] h d = tt
IsClear-update p f (x ∷ xs) h d = (row (p x), IsClear-update p f xs h d.1)
  where
    row : (b : Bool) → (if b then f x else x).failed_approval_attempts ≡ 0
    row true = h x ∙ d.0
    row false = d.0

explained :
    (now : ℕ) (code user : String) (db : DeviceDb)
    → IsClear db
    → any (is_approvable now code) db.requests ≡ false
    → Uncounted (handle_approve_failure now code user db)
unfolding handle_approve_failure explain_failure
explained now code user db d miss =
    elim (Option-cases (find_row (has_user_code code) db.requests)) [
      | inl f ↦ rw (f, handle_approve_failure) (λ e. cc e, d)
      | inr (row, f) ↦
          let (m, hit) = find_row-Mem (has_user_code code) db.requests f in
          let zero_yet : row.failed_approval_attempts ≡ 0 =
            All-Mem (λ (r : DeviceRequest). r.failed_approval_attempts ≡ 0) d m in
          elim (Bool-cases (leb row.expires_at now)) [
            | inl g ↦ rw (f, g, handle_approve_failure) (λ e. cc e, d)
            | inr g ↦ elim (Bool-cases (is_some row.approved_user_id || is_some row.denied_at)) [
              | inl h ↦ rw (f, g, h, handle_approve_failure) (λ e. cc e, d)
              | inr h ↦
                  let open_row : is_approvable now code row ≡ true =
                    ground (arith, hit, zero_yet, g, h) in
                  absurd (cc (miss, any_of_Mem (is_approvable now code) m open_row))
            ]
          ]
    ]

approve-Uncounted :
    (now : ℕ) (code user : String) (db : DeviceDb)
    → IsClear db
    → Uncounted (approve now code user db)
unfolding approve
approve-Uncounted now code user db d =
    elim (Bool-cases (any (is_approvable now code) db.requests)) [
      | inl e ↦
          rw (e, approve)
            (
              λ k. cc k,
              IsClear-update (is_approvable now code) (grant_to user now) db.requests (λ x. refl) d,
            )
      | inr e ↦ rw (e, approve) (explained now code user db d e)
    ]

deny-Uncounted :
    (now : ℕ) (code user : String) (db : DeviceDb) → IsClear db → Uncounted (deny now code user db)
unfolding deny
deny-Uncounted now code user db d =
    let kept =
      IsClear-update (is_pending now code) (refuse now user_denied) db.requests (λ x. refl) d in
    elim (Bool-cases (any (is_pending now code) db.requests)) [
      | inl e ↦ rw (e, deny) (λ k. cc k, kept)
      | inr e ↦ rw (e, deny) (λ k. cc k, kept)
    ]

past_csrf-Uncounted :
    (now : ℕ) (user code action : String) (valid : Bool) (db : DeviceDb)
    → IsClear db
    → Uncounted (past_csrf now user code action valid db)
unfolding past_csrf decide
past_csrf-Uncounted now user code action valid db d = elim (Bool-cases valid) [
  | inr e ↦ rw (e, past_csrf) (λ k. cc k, d)
  | inl e ↦ elim (Bool-cases (action == "approve")) [
    | inl f ↦ rw (e, f, past_csrf, decide) (approve-Uncounted now code user db d)
    | inr f ↦ elim (Bool-cases (action == "deny")) [
      | inl g ↦ rw (e, f, g, past_csrf, decide) (deny-Uncounted now code user db d)
      | inr g ↦ rw (e, f, g, past_csrf, decide) (λ k. cc k, d)
    ]
  ]
]

limited_by-Uncounted :
    (key : String) (cfg : Config) (now : ℕ) (rest : DeviceDb → Reply × DeviceDb) (db : DeviceDb)
    → ((d : DeviceDb) → IsClear d → Uncounted (rest d))
    → IsClear db
    → Uncounted (limited_by key cfg now rest db)
unfolding limited_by
limited_by-Uncounted key cfg now rest db h d = answered (check key cfg now db.buckets).0
  where
    after : DeviceDb
    after = record db { buckets = (check key cfg now db.buckets).1 }

    answered :
        (a : Result)
        → Uncounted (elim a as (λ x. Reply × DeviceDb) [
          | allowed remaining reset_at ↦ rest after
          | denied seconds ↦ (limited seconds, after)
        ])
    answered (allowed remaining reset_at) = h after d
    answered (denied seconds) = (λ k. cc k, d)

submitted :
    (now : ℕ) (user : String) (code action form cookie : Option String) (db : DeviceDb)
    → IsClear db
    → Uncounted (handle_device_approve now user code action form cookie db)
unfolding handle_device_approve
submitted now user code action form cookie db d =
    let valid = verify_csrf_token cookie form in
    elim (Option-cases (or_null code)) [
      | inl e ↦ rw (e, handle_device_approve) (λ k. cc k, d)
      | inr (c, e) ↦ elim (Option-cases (or_null action)) [
        | inl f ↦ rw (e, f, handle_device_approve) (λ k. cc k, d)
        | inr (a, f) ↦
            let checked = past_csrf now user c a valid in
            rw (e, f, handle_device_approve)
              (limited_by-Uncounted ("device-approve-min:" ++ user) approve_rate_per_min now
                (limited_by ("device-approve-hour:" ++ user) approve_rate_per_hour now checked) db
                (λ b k.
                  limited_by-Uncounted ("device-approve-hour:" ++ user) approve_rate_per_hour now
                    checked b (λ b' k'. past_csrf-Uncounted now user c a valid b' k') k)
                d)
      ]
    ]

IsClear-select :
    (p : DeviceRequest → Bool) (xs : List DeviceRequest)
    → All (λ (r : DeviceRequest). r.failed_approval_attempts ≡ 0) xs
    → All (λ (r : DeviceRequest). r.failed_approval_attempts ≡ 0) (select p xs)
IsClear-select p [] d = tt
IsClear-select p (x ∷ xs) d = elim (Bool-cases (p x)) [
  | inl e ↦ rw e (d.0, IsClear-select p xs d.1)
  | inr e ↦ rw e (IsClear-select p xs d.1)
]

IsClear-finish :
    (device : String) (u : User) (pair : MintedPair) (db : DeviceDb)
    → IsClear db
    → IsClear (finish_device_grant device u pair db)
unfolding finish_device_grant
IsClear-finish device u pair db d =
    IsClear-select (λ (r : DeviceRequest). not (has_device_code device r)) db.requests d

IsClear-polled :
    (now : ℕ) (device : String) (db : DeviceDb)
    → IsClear db
    → IsClear (record db { requests = (poll now device db.requests).1 })
unfolding poll
IsClear-polled now device db d =
    IsClear-update (may_poll now device) (polled now) db.requests (λ x. refl) d

IsClear-grant_minted :
    (device : String) (u : User) (answer : Answer MintedPair) (db : DeviceDb)
    → IsClear db
    → IsClear (grant_minted device u answer db).1
unfolding grant_minted
IsClear-grant_minted device u (done pair) db d = IsClear-finish device u pair db d
IsClear-grant_minted device u (reply response) db d = d
IsClear-grant_minted device u thrown db d = d

IsClear-grant_polled :
    (ctx : Context) (device : String) (verdict : Poll) (auth : AuthDb) (db : DeviceDb)
    → IsClear db
    → IsClear (grant_polled ctx device verdict auth db).2
unfolding grant_polled grant_approved
IsClear-grant_polled ctx device (ready user) auth db d =
    elim (Option-cases (find_row (has_id user) auth.users)) [
      | inl e ↦ rw (e, grant_polled, grant_approved) d
      | inr (u, e) ↦
          rw (e, grant_polled, grant_approved)
            (IsClear-grant_minted device u (mint_token_pair ctx (device_options u) auth).0 db d)
    ]
IsClear-grant_polled ctx device unknown_device auth db d = d
IsClear-grant_polled ctx device (slow_down n) auth db d = d
IsClear-grant_polled ctx device expired_token auth db d = d
IsClear-grant_polled ctx device access_denied auth db d = d
IsClear-grant_polled ctx device authorization_pending auth db d = d

IsClear-ask :
    (ctx : Context) (device : Option String) (auth : AuthDb) (db : DeviceDb)
    → IsClear db
    → IsClear (handle_device_code_grant ctx device auth db).2
unfolding handle_device_code_grant
IsClear-ask ctx device auth db d = elim (Option-cases (or_null device)) [
  | inl e ↦ rw (e, handle_device_code_grant) d
  | inr (c, e) ↦
      rw (e, handle_device_code_grant)
        (IsClear-grant_polled ctx c (poll ctx.now c db.requests).0 auth
          (record db { requests = (poll ctx.now c db.requests).1 }) (IsClear-polled ctx.now c db d))
]

IsClear-run : (es : List Event) (db : DeviceDb) → IsClear db → IsClear (run es db)
unfolding step
IsClear-run [] db d = d
IsClear-run (submit now user code action form cookie ∷ es) db d =
    IsClear-run es _ (submitted now user code action form cookie db d).1
IsClear-run (knock now device ∷ es) db d = IsClear-run es _ (IsClear-polled now device db d)
IsClear-run (ask ctx device auth ∷ es) db d = IsClear-run es _ (IsClear-ask ctx device auth db d)
IsClear-run (finish device u pair ∷ es) db d = IsClear-run es _ (IsClear-finish device u pair db d)

-- The lockout after five failed approvals is out of reach: from requests with no failure counted,
-- as they are inserted, no sequence of submitted forms and polls makes any form's answer the
-- lockout, and no failure is ever counted.
pub lockout_unreachable :
    (es : List Event) (now : ℕ) (user : String) (code action form cookie : Option String)
    (db : DeviceDb)
    → IsClear db
    → ((handle_device_approve now user code action form cookie (run es db)).0 ≢ lockout)
      × IsClear (run es db)
lockout_unreachable es now user code action form cookie db d =
    let clear = IsClear-run es db d in
    ((submitted now user code action form cookie (run es db) clear).0, clear)
