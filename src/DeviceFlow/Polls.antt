-- ===== src/DeviceFlow/Polls.antt =====
-- What the polls of src/auth/oauth-token.ts and the statements on device_auth_requests leave of a
-- decision.
use mcp_coordinator.Prelude.{
  ℕ, String, ◌≡◌, refl, sym, ◌∙◌, inl, inr, Bool, true, false, not, Option, select, All, List, [],
  ◌∷◌, or_null, if◌then◌else◌, Bool-cases, Option-cases,
}
use mcp_coordinator.Table.{find_row, update_where}
use mcp_coordinator.Auth.State.{AuthDb, Context, User}
use mcp_coordinator.Auth.Steps.{Answer, done, reply, thrown}
use mcp_coordinator.Auth.Epoch.{has_id}
use mcp_coordinator.Auth.Mint.{MintedPair, mint_token_pair}
use mcp_coordinator.DeviceFlow.Grant.{
  handle_device_code_grant, finish_device_grant, grant_minted, grant_polled, grant_approved,
  device_options,
}
use mcp_coordinator.DeviceFlow.{
  Poll, unknown_device, slow_down, expired_token, access_denied, authorization_pending, ready,
  DeviceRequest, DeviceDb, has_user_code, has_device_code, is_undecided, set_requests, poll,
  may_poll, polled,
}

-- What a row of the code says is what `r` says.
abbrev pub Agrees : String → DeviceRequest → DeviceRequest → Type 0
Agrees code r s =
    has_user_code code s ≡ true
    → (s.approved_user_id ≡ r.approved_user_id) × (s.denied_at ≡ r.denied_at)

abbrev pub Stands : String → DeviceRequest → DeviceDb → Type 0
Stands code r db = All (Agrees code r) db.requests

module _ (code : String) (r : DeviceRequest) (decided : is_undecided r ≡ false) where
  Stands-update :
      (p : DeviceRequest → Bool) (f : DeviceRequest → DeviceRequest) (xs : List DeviceRequest)
      → ((x : DeviceRequest) → has_user_code code (f x) ≡ has_user_code code x)
      → ((x : DeviceRequest)
          → has_user_code code x ≡ true
          → is_undecided x ≡ false
          → p x ≡ true
          → ((f x).approved_user_id ≡ x.approved_user_id) × ((f x).denied_at ≡ x.denied_at))
      → All (Agrees code r) xs
      → All (Agrees code r) (update_where p f xs)
  Stands-update p f [] keeps spares st = tt
  Stands-update p f (x ∷ xs) keeps spares st =
      (row (p x) refl, Stands-update p f xs keeps spares st.1)
    where
      row : (b : Bool) → p x ≡ b → Agrees code r (if b then f x else x)
      row false e = st.0
      row true e = λ h.
          let mine = sym (keeps x) ∙ h in
          let (a, d) = st.0 mine in
          let (a', d') = spares x mine (rw (a, d) decided) e in (a' ∙ a, d' ∙ d)

  pub Stands-set_requests :
      (p : DeviceRequest → Bool) (f : DeviceRequest → DeviceRequest) (db : DeviceDb)
      → ((x : DeviceRequest) → has_user_code code (f x) ≡ has_user_code code x)
      → ((x : DeviceRequest)
          → has_user_code code x ≡ true
          → is_undecided x ≡ false
          → p x ≡ true
          → ((f x).approved_user_id ≡ x.approved_user_id) × ((f x).denied_at ≡ x.denied_at))
      → Stands code r db
      → Stands code r (set_requests p f db)
  Stands-set_requests p f db keeps spares st = Stands-update p f db.requests keeps spares st

  pub Stands-select :
      (p : DeviceRequest → Bool) (xs : List DeviceRequest)
      → All (Agrees code r) xs
      → All (Agrees code r) (select p xs)
  Stands-select p [] st = tt
  Stands-select p (x ∷ xs) st = elim (Bool-cases (p x)) [
    | inl e ↦ rw e (st.0, Stands-select p xs st.1)
    | inr e ↦ rw e (Stands-select p xs st.1)
  ]

  Stands-grant_minted :
      (device : String) (u : User) (answer : Answer MintedPair) (db : DeviceDb)
      → Stands code r db
      → Stands code r (grant_minted device u answer db).1
  unfolding grant_minted finish_device_grant
  Stands-grant_minted device u (done pair) db st =
      Stands-select (λ (x : DeviceRequest). not (has_device_code device x)) db.requests st
  Stands-grant_minted device u (reply response) db st = st
  Stands-grant_minted device u thrown db st = st

  Stands-grant_polled :
      (ctx : Context) (device : String) (verdict : Poll) (auth : AuthDb) (db : DeviceDb)
      → Stands code r db
      → Stands code r (grant_polled ctx device verdict auth db).2
  unfolding grant_polled grant_approved
  Stands-grant_polled ctx device (ready user) auth db st =
      elim (Option-cases (find_row (has_id user) auth.users)) [
        | inl e ↦ rw (e, grant_polled, grant_approved) st
        | inr (u, e) ↦
            rw (e, grant_polled, grant_approved)
              (Stands-grant_minted device u (mint_token_pair ctx (device_options u) auth).0 db st)
      ]
  Stands-grant_polled ctx device unknown_device auth db st = st
  Stands-grant_polled ctx device (slow_down n) auth db st = st
  Stands-grant_polled ctx device expired_token auth db st = st
  Stands-grant_polled ctx device access_denied auth db st = st
  Stands-grant_polled ctx device authorization_pending auth db st = st

  pub Stands-polled :
      (now : ℕ) (device : String) (xs : List DeviceRequest)
      → All (Agrees code r) xs
      → All (Agrees code r) (poll now device xs).1
  unfolding poll
  Stands-polled now device xs st =
      Stands-update (may_poll now device) (polled now) xs (λ x. refl) (λ x h u p. (refl, refl)) st

  pub Stands-ask :
      (ctx : Context) (device : Option String) (auth : AuthDb) (db : DeviceDb)
      → Stands code r db
      → Stands code r (handle_device_code_grant ctx device auth db).2
  unfolding handle_device_code_grant
  Stands-ask ctx device auth db st = elim (Option-cases (or_null device)) [
    | inl e ↦ rw (e, handle_device_code_grant) st
    | inr (c, e) ↦
        rw (e, handle_device_code_grant)
          (Stands-grant_polled ctx c (poll ctx.now c db.requests).0 auth
            (record db { requests = (poll ctx.now c db.requests).1 })
            (Stands-polled ctx.now c db.requests st))
  ]
