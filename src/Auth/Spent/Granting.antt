-- ===== src/Auth/Spent/Granting.antt =====
-- The recheck of the membership and the whole grant of src/auth/refresh-rotation.ts revive no
-- revoked row.
use mcp_coordinator.Prelude.{
  ℕ, String, ◌≡◌, refl, sym, subst, inl, inr, Bool, true, false, ◌&&◌, Option, none, some, List,
  All, arith, Option-cases, or_null,
}
use mcp_coordinator.Table.{find_row}
use mcp_coordinator.Auth.State.{
  AuthDb, Claims, Context, RefreshRow, RevokedReason, Fetched, got, token_gone, transient, failed,
  is_live, has_jti, User, Provider, Audit, Column, CacheEntry,
}
use mcp_coordinator.Auth.Steps.{Step, pure, gets, audit}
use mcp_coordinator.Auth.Epoch.{bump_token_epoch, has_id, check_token_epoch}
use mcp_coordinator.Auth.Mint.{fresh_row, MintOptions}
use mcp_coordinator.Auth.Membership.{
  AllowlistMatch, get_memberships, resolve_org_from_memberships, remember, ask, settle, cache_key,
  cached,
}
use mcp_coordinator.Auth.Recheck.{
  evict, decrypt_column, stored_tokens, store_tokens, by_refreshed, retry, memberships_or_reply,
  deny_outsider, recheck_with, recheck_or_skip, refresh_idp_membership_and_allowlist, evicted,
  reject, decrypt_second, retry_with, settle_with, match_with, deny_or_pass, rechecked, user_row,
  recheck_user, recheck_tokens, named_provider, ask_cache,
}
use mcp_coordinator.Auth.Rotation.Guards.{
  Form, extract_refresh_token, verify_and_validate_claims, check_not_service_account,
  select_refresh_row, check_idle_timeout,
}
use mcp_coordinator.Auth.Rotation.{
  grant_token, grant_claims, grant_session, grant_row, grant_rotation, grant_member,
  rotate_or_reuse, refresh_token_grant,
}
use mcp_coordinator.Auth.Spent.{IsBlind, Buries, Buries-bind, Buries-then}
use mcp_coordinator.Auth.Spent.Rotating.{
  Buries-mark, Buries-check_token_epoch, Buries-check_idle_timeout, Buries-rotate_or_reuse,
}

-- The step leaves refresh_tokens alone.
abbrev pub Quiet : {A : Type 0} → Step A → Type 0
Quiet m = (db : AuthDb) → (m db).1.tokens ≡ db.tokens

pub bump_token_epoch-Quiet : (wall : ℕ) (user : String) → Quiet (bump_token_epoch wall user)
unfolding bump_token_epoch
bump_token_epoch-Quiet wall user db = elim (Option-cases (find_row (has_id user) db.users)) [
  | inl e ↦ rw (e, bump_token_epoch) refl
  | inr (u, e) ↦ rw (e, bump_token_epoch) refl
]

ask-Quiet :
    (ctx : Context) (key : String) (o : Option CacheEntry) (p : Provider) (token : String)
    (db : AuthDb)
    → (ask ctx key o p token db).1.tokens ≡ db.tokens
unfolding ask settle remember
ask-Quiet ctx key o p token db = ground arith

get_memberships-Quiet :
    (ctx : Context) (user : String) (p : Provider) (token : String) (db : AuthDb)
    → (get_memberships ctx user p token db).1.tokens ≡ db.tokens
unfolding get_memberships remember
get_memberships-Quiet ctx user p token db =
    let key = cache_key ctx user p.name in
    ground (arith, ask-Quiet ctx key (cached ctx key db) p token db)

module _ (q : RefreshRow → Bool) where
  pub Buries-of_Quiet : {A : Type 0} (m : Step A) → Quiet m → Buries q m
  Buries-of_Quiet m quiet db d =
      subst (All (λ r. q r ≡ true → is_live r ≡ false)) (sym (quiet db)) d

  Buries-evict : (A : Type 0) (ctx : Context) (user : String) → Buries q (evict {A = A} ctx user)
  unfolding evict
  Buries-evict A ctx user =
      Buries-bind q (audit (Audit.decrypt_failed user)) (λ u. evicted {A = A} ctx user) (λ db d. d)
        λ u.
          Buries-bind q (bump_token_epoch ctx.wall user) (λ n. reject {A = A} user)
            (Buries-of_Quiet (bump_token_epoch ctx.wall user)
              (bump_token_epoch-Quiet ctx.wall user))
            (λ n db d. d)

  Buries-decrypt_column :
      (ctx : Context) (org user : String) (column : Column) (value : Option String)
      → Buries q (decrypt_column ctx org user column value)
  unfolding decrypt_column
  Buries-decrypt_column ctx org user column value db d =
      ground (arith, d, Buries-evict (Option String) ctx user db d)

  Buries-stored_tokens :
      (ctx : Context) (user : String) (o : Option User) → Buries q (stored_tokens ctx user o)
  unfolding stored_tokens
  Buries-stored_tokens ctx user none db d = d
  Buries-stored_tokens ctx user (some u) db d = ground (
    arith,
    d,
    Buries-bind q
        (decrypt_column ctx u.primary_org_id user Column.idp_access_token u.idp_access_token)
        (decrypt_second ctx user u)
        (Buries-decrypt_column ctx u.primary_org_id user Column.idp_access_token u.idp_access_token)
        (λ access.
          Buries-bind q
            (decrypt_column ctx u.primary_org_id user Column.idp_refresh_token u.idp_refresh_token)
            (λ refresh. pure (access, refresh))
            (Buries-decrypt_column ctx u.primary_org_id user Column.idp_refresh_token
              u.idp_refresh_token)
            (λ refresh db d. d))
        db d,
  )

  Buries-retry :
      (ctx : Context) (user : String) (u : User) (p : Provider) (refresh : Option String)
      (answer : Fetched (List String))
      → Buries q (retry ctx user u p refresh answer)
  unfolding retry by_refreshed store_tokens
  Buries-retry ctx user u p none answer db d = ground (arith, d)
  Buries-retry ctx user u p (some old) (got names) db d = d
  Buries-retry ctx user u p (some old) transient db d = d
  Buries-retry ctx user u p (some old) failed db d = d
  Buries-retry ctx user u p (some old) token_gone db d = ground (arith, d)

  Buries-memberships_or_reply :
      (user : String) (answer : Fetched (List String)) → Buries q (memberships_or_reply user answer)
  unfolding memberships_or_reply
  Buries-memberships_or_reply user answer db d = ground (arith, d)

  Buries-extract : (body : Option Form) → Buries q (extract_refresh_token body)
  unfolding extract_refresh_token
  Buries-extract body db d = ground (arith, d)

  Buries-verify : (ctx : Context) (token : String) → Buries q (verify_and_validate_claims ctx token)
  unfolding verify_and_validate_claims
  Buries-verify ctx token db d = ground (arith, d)

  Buries-service : (claims : Claims) → Buries q (check_not_service_account claims)
  unfolding check_not_service_account
  Buries-service claims db d = ground (arith, d)

  Buries-select : (claims : Claims) → Buries q (select_refresh_row claims)
  unfolding select_refresh_row
  Buries-select claims db d = elim (Option-cases (find_row (has_jti claims.jti) db.tokens)) [
    | inl e ↦ rw (e, select_refresh_row) d
    | inr (row, e) ↦ rw (e, select_refresh_row) d
  ]

module _ (q : RefreshRow → Bool) (blind : IsBlind q) where
  Buries-deny_outsider :
      (ctx : Context) (claims : Claims) (row : RefreshRow) (found : Option AllowlistMatch)
      → Buries q (deny_outsider ctx claims row found)
  unfolding deny_outsider
  Buries-deny_outsider ctx claims row found db d = ground (
    arith,
    d,
    Buries-mark q blind (λ r. has_jti claims.jti r && is_live r) ctx.now RevokedReason.admin db d,
  )

  Buries-recheck_with :
      (ctx : Context) (claims : Claims) (row : RefreshRow) (u : User) (p : Provider)
      (access : String) (refresh : Option String)
      → Buries q (recheck_with ctx claims row u p access refresh)
  unfolding recheck_with
  Buries-recheck_with ctx claims row u p access refresh =
      Buries-bind q (ask_cache ctx claims.sub p access) (retry_with ctx claims row u p refresh)
        (Buries-of_Quiet q (ask_cache ctx claims.sub p access)
          (get_memberships-Quiet ctx claims.sub p access))
        λ first.
          Buries-bind q (retry ctx row.user_id u p refresh first) (settle_with ctx claims row u)
            (Buries-retry q ctx row.user_id u p refresh first)
            λ answer.
              Buries-bind q (memberships_or_reply row.user_id answer) (match_with ctx claims row u)
                (Buries-memberships_or_reply q row.user_id answer)
                λ names.
                  Buries-bind q (gets (resolve_org_from_memberships ctx names))
                    (deny_or_pass ctx claims row u) (λ db d. d)
                    λ found.
                      Buries-bind q (deny_outsider ctx claims row found)
                        (λ n. pure (rechecked u found)) (Buries-deny_outsider ctx claims row found)
                        (λ n db d. d)

  Buries-recheck_or_skip :
      (ctx : Context) (claims : Claims) (row : RefreshRow) (o : Option User)
      (access refresh : Option String)
      → Buries q (recheck_or_skip ctx claims row o access refresh)
  unfolding recheck_or_skip
  Buries-recheck_or_skip ctx claims row none access refresh db d = d
  Buries-recheck_or_skip ctx claims row (some u) access refresh db d =
      elim (Option-cases (or_null access)) [
        | inl e ↦ rw (e, recheck_or_skip) d
        | inr (token, e) ↦ elim (Option-cases (named_provider ctx u.idp_provider)) [
          | inl f ↦ rw (e, f, recheck_or_skip) d
          | inr (p, f) ↦
              rw (e, f, recheck_or_skip) (Buries-recheck_with ctx claims row u p token refresh db d)
        ]
      ]

  pub Buries-recheck :
      (ctx : Context) (claims : Claims) (row : RefreshRow)
      → Buries q (refresh_idp_membership_and_allowlist ctx claims row)
  unfolding refresh_idp_membership_and_allowlist
  Buries-recheck ctx claims row =
      Buries-bind q (gets (user_row row)) (recheck_user ctx claims row) (λ db d. d)
        λ o.
          Buries-bind q (stored_tokens ctx row.user_id o) (recheck_tokens ctx claims row o)
            (Buries-stored_tokens q ctx row.user_id o)
            (λ tokens. Buries-recheck_or_skip ctx claims row o tokens.0 tokens.1)

  pub Buries-refresh_token_grant :
      (ctx : Context) (body : Option Form)
      → ((opts : MintOptions) → q (fresh_row ctx opts) ≡ false)
      → Buries q (refresh_token_grant ctx body)
  unfolding refresh_token_grant
  Buries-refresh_token_grant ctx body fresh =
      Buries-bind q (extract_refresh_token body) (grant_token ctx) (Buries-extract q body) λ token.
        Buries-bind q (verify_and_validate_claims ctx token) (grant_claims ctx)
          (Buries-verify q ctx token)
          λ claims.
            Buries-then q (check_not_service_account claims) (grant_session ctx claims)
              (Buries-service q claims)
              (Buries-then q (check_token_epoch claims) (grant_row ctx claims)
                (Buries-check_token_epoch q blind claims)
                (Buries-bind q (select_refresh_row claims) (grant_rotation ctx claims)
                  (Buries-select q claims)
                  λ row.
                    Buries-then q (check_idle_timeout ctx claims row) (grant_member ctx claims row)
                      (Buries-check_idle_timeout q blind ctx claims row)
                      (Buries-bind q (refresh_idp_membership_and_allowlist ctx claims row)
                        (rotate_or_reuse ctx claims row) (Buries-recheck ctx claims row)
                        (λ outcome. Buries-rotate_or_reuse q blind ctx claims row outcome fresh))))
