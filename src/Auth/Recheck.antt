-- ===== src/Auth/Recheck.antt =====
-- Step 7 of the rotation, refreshIdpMembershipAndAllowlist of src/auth/refresh-rotation.ts.
use mcp_coordinator.Prelude.{
  String, Bool, true, false, ◌&&◌, inl, inr, Option, none, some, List, ◌==◌, is_some, or_null,
  if◌then◌else◌,
}
use mcp_coordinator.Table.{find_row, update_where}
use mcp_coordinator.Auth.State.{
  AuthDb, Claims, Context, Column, Fetched, got, token_gone, transient, failed, Provider, Refreshed,
  RefreshRow, User, by_memberships, plain, undecryptable, broken, idp_access_token,
  idp_refresh_token, admin, decrypt_failed, idp_token_revoked, idp_token_refreshed, not_in_org,
  has_jti, is_live, mark,
}
use mcp_coordinator.Auth.Steps.{
  Step, done, thrown, oauth_error, pure, throw, respond, gets, modify, audit, write_oauth_error,
  ◌>>=◌, ◌>>◌, set_tokens,
}
use mcp_coordinator.Auth.Epoch.{bump_token_epoch, has_id}
use mcp_coordinator.Auth.Mint.{encrypt_nullable, decrypt_nullable, given_or}
use mcp_coordinator.Auth.Membership.{AllowlistMatch, get_memberships, resolve_org_from_memberships}

-- AllowlistCheckOutcome
pub record RecheckOutcome : Type 0 where
  pub user_row : Option User
  pub allowlist_match : Option AllowlistMatch
  pub performed : Bool

-- The 401 with WWW-Authenticate for a token that the provider has rejected.
abbrev pub provider_rejected : {A : Type 0} → Step A
provider_rejected =
    respond (oauth_error 401 "invalid_grant" "Identity provider rejected the token" true)

abbrev pub reject : {A : Type 0} → String → Step A
reject user = audit (idp_token_revoked user) >> provider_rejected

abbrev pub evicted : {A : Type 0} → Context → String → Step A
evicted ctx user = bump_token_epoch ctx.wall user >>= λ n. reject user

-- A token that cannot be decrypted ends every session of the user.
unfoldable pub evict : {A : Type 0} → Context → String → Step A
evict ctx user = audit (decrypt_failed user) >> evicted ctx user

unfoldable pub decrypt_column :
    Context → String → String → Column → Option String → Step (Option String)
unfolding evict
decrypt_column ctx org user column value db =
    elim (decrypt_nullable ctx.encryption org column user value) [
      | inr text ↦ (done text, db)
      | inl undecryptable ↦ evict ctx user db
      | inl (plain t) ↦ (thrown, db)
      | inl broken ↦ (thrown, db)
    ]

abbrev pub decrypt_second :
    Context → String → User → Option String → Step (Option String × Option String)
decrypt_second ctx user u access =
    decrypt_column ctx u.primary_org_id user idp_refresh_token u.idp_refresh_token >>= λ refresh.
    pure (access, refresh)

-- The stored tokens in the clear, where there is a user row with an organisation.
unfoldable pub stored_tokens : Context → String → Option User → Step (Option String × Option String)
unfolding decrypt_column
stored_tokens ctx user none = pure (none, none)
stored_tokens ctx user (some u) =
    if u.primary_org_id == ""
    then pure (none, none)
    else decrypt_column ctx u.primary_org_id user idp_access_token u.idp_access_token
      >>= decrypt_second ctx user u

abbrev pub recheck_supported : Provider → Bool
recheck_supported p = elim p.strategy [
  | none ↦ true
  | some by_memberships ↦ true
  | some other ↦ false
]

-- The user's provider, where it is registered and can be asked again; a name "" counts as none.
abbrev pub named_provider : Context → String → Option Provider
named_provider ctx name = if name == "" then none else elim (ctx.providers name) [
  | none ↦ none
  | some p ↦ if recheck_supported p then some p else none
]

-- UPDATE users SET idp_access_token = ?, idp_refresh_token = ? WHERE id = ?
unfoldable pub store_tokens : Context → String → User → String → Refreshed → AuthDb → AuthDb
store_tokens ctx user u old fresh db =
    let wrap = encrypt_nullable ctx.encryption u.primary_org_id in
    record db {
      users =
          update_where (has_id user)
            (λ v. record v {
              idp_access_token = wrap idp_access_token user (some fresh.access_token);
              idp_refresh_token =
                  wrap idp_refresh_token user (some (given_or fresh.refresh_token old));
            })
            db.users;
    }

-- The memberships by a refreshed token of the provider.
unfoldable pub by_refreshed :
    Context → String → User → Provider → String → Fetched Refreshed → Step (Fetched (List String))
unfolding store_tokens
by_refreshed ctx user u provider old token_gone = pure token_gone
by_refreshed ctx user u provider old transient = pure transient
by_refreshed ctx user u provider old failed = pure failed
by_refreshed ctx user u provider old (got fresh) =
    modify (store_tokens ctx user u old fresh)
    >> (audit (idp_token_refreshed user) >> elim provider.list_memberships [
      | none ↦ pure failed
      | some list ↦ pure (list fresh.access_token)
    ])

-- After IdPTokenRevoked the provider's refresh flow is tried, where there is one and a token for it.
unfoldable pub retry :
    Context
    → String
    → User
    → Provider
    → Option String
    → Fetched (List String)
    → Step (Fetched (List String))
unfolding by_refreshed
retry ctx user u provider (some old) token_gone = elim provider.refresh_idp_token [
  | none ↦ pure token_gone
  | some exchange ↦ by_refreshed ctx user u provider old (exchange old)
]
retry ctx user u provider refresh answer = pure answer

unfoldable pub memberships_or_reply : String → Fetched (List String) → Step (List String)
memberships_or_reply user (got names) = pure names
memberships_or_reply user token_gone = audit (idp_token_revoked user) >> provider_rejected
memberships_or_reply user transient =
    write_oauth_error "temporarily_unavailable" "Identity provider unavailable" 503
memberships_or_reply user failed = throw

-- A live row whose user is in no allowlisted organisation is revoked, and it alone.
unfoldable pub deny_outsider :
    Context → Claims → RefreshRow → Option AllowlistMatch → Step (Unit {0})
deny_outsider ctx claims row found =
    if is_some found
    then pure tt
    else if is_live row
    then modify (set_tokens (λ r. has_jti claims.jti r && is_live r) (mark ctx.now admin))
      >> (audit (not_in_org row.user_id claims.jti)
          >> write_oauth_error "invalid_grant" "User is not in any allowlisted org" 401)
    else pure tt

abbrev pub ask_cache : Context → String → Provider → String → Step (Fetched (List String))
ask_cache ctx user provider token db =
    let (answer, db') = get_memberships ctx user provider token db in (done answer, db')

abbrev pub rechecked : User → Option AllowlistMatch → RecheckOutcome
rechecked u found = record { user_row = some u; allowlist_match = found; performed = true }

abbrev pub deny_or_pass :
    Context → Claims → RefreshRow → User → Option AllowlistMatch → Step RecheckOutcome
deny_or_pass ctx claims row u found = deny_outsider ctx claims row found >> pure (rechecked u found)

abbrev pub match_with : Context → Claims → RefreshRow → User → List String → Step RecheckOutcome
match_with ctx claims row u names =
    gets (resolve_org_from_memberships ctx names) >>= deny_or_pass ctx claims row u

abbrev pub settle_with :
    Context → Claims → RefreshRow → User → Fetched (List String) → Step RecheckOutcome
settle_with ctx claims row u answer =
    memberships_or_reply row.user_id answer >>= match_with ctx claims row u

abbrev pub retry_with :
    Context
    → Claims
    → RefreshRow
    → User
    → Provider
    → Option String
    → Fetched (List String)
    → Step RecheckOutcome
retry_with ctx claims row u provider refresh first =
    retry ctx row.user_id u provider refresh first >>= settle_with ctx claims row u

unfoldable pub recheck_with :
    Context → Claims → RefreshRow → User → Provider → String → Option String → Step RecheckOutcome
unfolding retry memberships_or_reply deny_outsider
recheck_with ctx claims row u provider access refresh =
    ask_cache ctx claims.sub provider access >>= retry_with ctx claims row u provider refresh

-- The recheck where there is an access token, a registered provider and its support.
unfoldable pub recheck_or_skip :
    Context
    → Claims
    → RefreshRow
    → Option User
    → Option String
    → Option String
    → Step RecheckOutcome
unfolding recheck_with
recheck_or_skip ctx claims row none access refresh =
    pure (record { user_row = none; allowlist_match = none; performed = false })
recheck_or_skip ctx claims row (some u) access refresh = elim (or_null access) [
  | none ↦ pure (record { user_row = some u; allowlist_match = none; performed = false })
  | some token ↦ elim (named_provider ctx u.idp_provider) [
    | none ↦ pure (record { user_row = some u; allowlist_match = none; performed = false })
    | some p ↦ recheck_with ctx claims row u p token refresh
  ]
]

abbrev pub user_row : RefreshRow → AuthDb → Option User
user_row row db = find_row (has_id row.user_id) db.users

abbrev pub recheck_tokens :
    Context
    → Claims
    → RefreshRow
    → Option User
    → Option String × Option String
    → Step RecheckOutcome
recheck_tokens ctx claims row user tokens = recheck_or_skip ctx claims row user tokens.0 tokens.1

abbrev pub recheck_user : Context → Claims → RefreshRow → Option User → Step RecheckOutcome
recheck_user ctx claims row user =
    stored_tokens ctx row.user_id user >>= recheck_tokens ctx claims row user

unfoldable pub refresh_idp_membership_and_allowlist :
    Context → Claims → RefreshRow → Step RecheckOutcome
unfolding stored_tokens recheck_or_skip
refresh_idp_membership_and_allowlist ctx claims row =
    gets (user_row row) >>= recheck_user ctx claims row
