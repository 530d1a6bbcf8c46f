-- ===== src/Auth/Rotation/Mutes.antt =====
-- The steps before the rotation give out no tokens: src/auth/refresh-rotation.ts.
use mcp_coordinator.Prelude.{
  ℕ, String, inl, inr, Option, none, some, List, arith, Option-cases, or_null,
}
use mcp_coordinator.Table.{find_row}
use mcp_coordinator.Auth.State.{
  Claims, Context, RefreshRow, Fetched, got, token_gone, transient, failed, has_jti, User, Provider,
  Audit, Column,
}
use mcp_coordinator.Auth.Steps.{pure, gets, audit}
use mcp_coordinator.Auth.Epoch.{bump_token_epoch, has_id, check_token_epoch}
use mcp_coordinator.Auth.Membership.{AllowlistMatch, resolve_org_from_memberships}
use mcp_coordinator.Auth.Outcomes.{Mute, Mute-bind}
use mcp_coordinator.Auth.Recheck.{
  evict, evicted, reject, decrypt_column, decrypt_second, stored_tokens, by_refreshed, retry,
  memberships_or_reply, deny_outsider, recheck_with, recheck_or_skip, retry_with, settle_with,
  match_with, deny_or_pass, rechecked, user_row, recheck_user, recheck_tokens, named_provider,
  ask_cache, refresh_idp_membership_and_allowlist,
}
use mcp_coordinator.Auth.Rotation.Guards.{
  Form, extract_refresh_token, verify_and_validate_claims, check_not_service_account,
  select_refresh_row, check_idle_timeout, expire_idle,
}

pub Mute-extract : (body : Option Form) → Mute (extract_refresh_token body)
unfolding extract_refresh_token
Mute-extract body db x y e = ground (arith, e)

pub Mute-verify : (ctx : Context) (token : String) → Mute (verify_and_validate_claims ctx token)
unfolding verify_and_validate_claims
Mute-verify ctx token db x y e = ground (arith, e)

pub Mute-service : (claims : Claims) → Mute (check_not_service_account claims)
unfolding check_not_service_account
Mute-service claims db x y e = ground (arith, e)

pub Mute-check_token_epoch : (claims : Claims) → Mute (check_token_epoch claims)
unfolding check_token_epoch
Mute-check_token_epoch claims db x y e = ground (arith, e)

pub Mute-select : (claims : Claims) → Mute (select_refresh_row claims)
unfolding select_refresh_row
Mute-select claims db x y e = elim (Option-cases (find_row (has_jti claims.jti) db.tokens)) [
  | inl f ↦ cc (rw (f, select_refresh_row) at e)
  | inr (r, f) ↦ cc (rw (f, select_refresh_row) at e)
]

pub Mute-check_idle_timeout :
    (ctx : Context) (claims : Claims) (row : RefreshRow) → Mute (check_idle_timeout ctx claims row)
unfolding check_idle_timeout expire_idle
Mute-check_idle_timeout ctx claims row db x y e = ground (arith, e)

Mute-bump : (wall : ℕ) (user : String) → Mute (bump_token_epoch wall user)
unfolding bump_token_epoch
Mute-bump wall user db x y e = elim (Option-cases (find_row (has_id user) db.users)) [
  | inl f ↦ cc (rw (f, bump_token_epoch) at e)
  | inr (r, f) ↦ cc (rw (f, bump_token_epoch) at e)
]

Mute-evict : (A : Type 0) (ctx : Context) (user : String) → Mute (evict {A = A} ctx user)
unfolding evict
Mute-evict A ctx user =
    Mute-bind (audit (Audit.decrypt_failed user)) (λ u. evicted {A = A} ctx user) (λ db x y e. cc e)
      λ u.
        Mute-bind (bump_token_epoch ctx.wall user) (λ n. reject {A = A} user)
          (Mute-bump ctx.wall user) (λ n db x y e. cc e)

Mute-decrypt_column :
    (ctx : Context) (org user : String) (column : Column) (value : Option String)
    → Mute (decrypt_column ctx org user column value)
unfolding decrypt_column
Mute-decrypt_column ctx org user column value db x y e =
    ground (arith, e, Mute-evict (Option String) ctx user db x y)

Mute-stored_tokens :
    (ctx : Context) (user : String) (o : Option User) → Mute (stored_tokens ctx user o)
unfolding stored_tokens
Mute-stored_tokens ctx user none db x y e = cc e
Mute-stored_tokens ctx user (some u) db x y e =
    let org = u.primary_org_id in
    ground (
      arith,
      e,
      Mute-bind (decrypt_column ctx org user Column.idp_access_token u.idp_access_token)
          (decrypt_second ctx user u)
          (Mute-decrypt_column ctx org user Column.idp_access_token u.idp_access_token)
          (λ access.
            Mute-bind (decrypt_column ctx org user Column.idp_refresh_token u.idp_refresh_token)
              (λ refresh. pure (access, refresh))
              (Mute-decrypt_column ctx org user Column.idp_refresh_token u.idp_refresh_token)
              (λ refresh db x y e. cc e))
          db x y,
    )

Mute-retry :
    (ctx : Context) (user : String) (u : User) (p : Provider) (refresh : Option String)
    (answer : Fetched (List String))
    → Mute (retry ctx user u p refresh answer)
unfolding retry by_refreshed
Mute-retry ctx user u p none answer db x y e = ground (arith, e)
Mute-retry ctx user u p (some old) (got names) db x y e = cc e
Mute-retry ctx user u p (some old) transient db x y e = cc e
Mute-retry ctx user u p (some old) failed db x y e = cc e
Mute-retry ctx user u p (some old) token_gone db x y e = ground (arith, e)

Mute-memberships_or_reply :
    (user : String) (answer : Fetched (List String)) → Mute (memberships_or_reply user answer)
unfolding memberships_or_reply
Mute-memberships_or_reply user answer db x y e = ground (arith, e)

Mute-deny_outsider :
    (ctx : Context) (claims : Claims) (row : RefreshRow) (found : Option AllowlistMatch)
    → Mute (deny_outsider ctx claims row found)
unfolding deny_outsider
Mute-deny_outsider ctx claims row found db x y e = ground (arith, e)

Mute-recheck_with :
    (ctx : Context) (claims : Claims) (row : RefreshRow) (u : User) (p : Provider) (access : String)
    (refresh : Option String)
    → Mute (recheck_with ctx claims row u p access refresh)
unfolding recheck_with
Mute-recheck_with ctx claims row u p access refresh =
    Mute-bind (ask_cache ctx claims.sub p access) (retry_with ctx claims row u p refresh)
      (λ db x y e. cc e)
      λ first.
        Mute-bind (retry ctx row.user_id u p refresh first) (settle_with ctx claims row u)
          (Mute-retry ctx row.user_id u p refresh first)
          λ answer.
            Mute-bind (memberships_or_reply row.user_id answer) (match_with ctx claims row u)
              (Mute-memberships_or_reply row.user_id answer)
              λ names.
                Mute-bind (gets (resolve_org_from_memberships ctx names))
                  (deny_or_pass ctx claims row u) (λ db x y e. cc e)
                  λ found.
                    Mute-bind (deny_outsider ctx claims row found) (λ n. pure (rechecked u found))
                      (Mute-deny_outsider ctx claims row found) (λ n db x y e. cc e)

Mute-recheck_or_skip :
    (ctx : Context) (claims : Claims) (row : RefreshRow) (o : Option User)
    (access refresh : Option String)
    → Mute (recheck_or_skip ctx claims row o access refresh)
unfolding recheck_or_skip
Mute-recheck_or_skip ctx claims row none access refresh db x y e = cc e
Mute-recheck_or_skip ctx claims row (some u) access refresh db x y e =
    elim (Option-cases (or_null access)) [
      | inl a ↦ cc (rw (a, recheck_or_skip) at e)
      | inr (token, a) ↦ elim (Option-cases (named_provider ctx u.idp_provider)) [
        | inl f ↦ cc (rw (a, f, recheck_or_skip) at e)
        | inr (p, f) ↦
            Mute-recheck_with ctx claims row u p token refresh db x y
              (rw (a, f, recheck_or_skip) at e)
      ]
    ]

pub Mute-recheck :
    (ctx : Context) (claims : Claims) (row : RefreshRow)
    → Mute (refresh_idp_membership_and_allowlist ctx claims row)
unfolding refresh_idp_membership_and_allowlist
Mute-recheck ctx claims row =
    Mute-bind (gets (user_row row)) (recheck_user ctx claims row) (λ db x y e. cc e)
      λ o.
        Mute-bind (stored_tokens ctx row.user_id o) (recheck_tokens ctx claims row o)
          (Mute-stored_tokens ctx row.user_id o)
          (λ tokens. Mute-recheck_or_skip ctx claims row o tokens.0 tokens.1)
