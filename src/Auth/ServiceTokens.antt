-- ===== src/Auth/ServiceTokens.antt =====
-- src/auth/service-tokens.ts: tokens for machines. They live in refresh_tokens, in families of their
-- own. `lower` is that of SQLite, whose LIKE ignores case.
use Prim.Native.String.{◌++◌}
use mcp_coordinator.Prelude.{
  ℕ, ◌+◌, ◌*◌, String, Bool, true, false, ◌&&◌, ◌||◌, not, Option, none, some, ◌==◌, starts_with,
  any, ltb, is_some, if◌then◌else◌,
}
use mcp_coordinator.Table.{find_row}
use mcp_coordinator.Auth.State.{AuthDb, Context, RefreshRow, UserOrg, admin, has_jti, is_live, mark}
use mcp_coordinator.Auth.Steps.{Step, thrown, pure, ◌>>◌, set_tokens}
use mcp_coordinator.Auth.Epoch.{has_id}
use mcp_coordinator.Auth.Mint.{AccessClaims, mint_access_jwt, insert_token}

abbrev pub service_token_max_ttl_s : ℕ
service_token_max_ttl_s = 90 * 86400

abbrev pub service_token_min_reason_len : ℕ
service_token_min_reason_len = 10

pub record IssueOptions : Type 0 where
  pub target_user_id : String
  pub target_org_id : String
  pub scope : String
  pub ttl_seconds : ℕ
  pub reason : String
  pub issued_by_admin_id : String

pub record IssuedServiceToken : Type 0 where
  pub jti : String
  pub access_token : String
  pub family_id : String
  pub expires_at : ℕ

-- The codes of ServiceTokenValidationError.
pub data Refusal : Type 0 where
  invalid_ttl : Refusal
  ttl_exceeds_max : Refusal
  reason_too_short : Refusal
  invalid_scope : Refusal
  user_not_found : Refusal
  user_not_in_org : Refusal

-- The checks before any write, in their order.
unfoldable pub refusal_of : Context → IssueOptions → AuthDb → Option Refusal
refusal_of ctx opts db =
    if not (ltb 0 opts.ttl_seconds)
    then some invalid_ttl
    else if ltb service_token_max_ttl_s opts.ttl_seconds
    then some ttl_exceeds_max
    else if ltb (ctx.utf16_length opts.reason) service_token_min_reason_len
    then some reason_too_short
    else if not (opts.scope == "read" || opts.scope == "write" || opts.scope == "admin")
    then some invalid_scope
    else elim (find_row (has_id opts.target_user_id) db.users) [
      | none ↦ some user_not_found
      | some u ↦
          if u.primary_org_id == opts.target_org_id
            || any
                (λ (m : UserOrg).
                  m.user_id == opts.target_user_id && m.org_id == opts.target_org_id)
                db.user_orgs
          then none
          else some user_not_in_org
    ]

abbrev pub service_family : Context → String
service_family ctx = "service:" ++ ctx.new_family

abbrev pub service_row : Context → IssueOptions → RefreshRow
service_row ctx opts = record {
  jti = ctx.new_jti;
  user_id = opts.target_user_id;
  org_id = opts.target_org_id;
  family_id = some (service_family ctx);
  parent_jti = none;
  revoked_at = none;
  revoked_reason = none;
  consumer_fingerprint = none;
  expires_at = ctx.now + opts.ttl_seconds;
  last_used_at = some ctx.now;
  replay_count = 0;
}

abbrev pub service_claims : Context → IssueOptions → AccessClaims
service_claims ctx opts = record {
  sub = opts.target_user_id;
  active_org_id = opts.target_org_id;
  family_id = service_family ctx;
  role = "service";
  service_account = true;
  scope = some opts.scope;
  issued_by = some opts.issued_by_admin_id;
}

abbrev pub hand_out : Context → IssueOptions → Step IssuedServiceToken
hand_out ctx opts = pure record {
  jti = ctx.new_jti;
  access_token =
      mint_access_jwt ctx (service_claims ctx opts) opts.ttl_seconds none (some ctx.new_jti);
  family_id = service_family ctx;
  expires_at = ctx.now + opts.ttl_seconds;
}

-- A ServiceTokenValidationError is `thrown`.
unfoldable pub issue_service_token : Context → IssueOptions → Step IssuedServiceToken
unfolding refusal_of
issue_service_token ctx opts db =
    if is_some (refusal_of ctx opts db)
    then (thrown, db)
    else (insert_token (service_row ctx opts) >> hand_out ctx opts) db

-- family_id LIKE 'service:%'
abbrev pub is_service : (String → String) → RefreshRow → Bool
is_service lower r = elim r.family_id [ none ↦ false | some f ↦ starts_with (lower f) "service:" ]

abbrev pub is_service_jti : (String → String) → String → RefreshRow → Bool
is_service_jti lower jti r = has_jti jti r && is_service lower r

unfoldable pub revoke_service_token : Context → String → AuthDb → Bool × AuthDb
revoke_service_token ctx jti db = (
  any (λ r. is_service_jti ctx.sql_lower jti r && is_live r) db.tokens,
  set_tokens (λ r. is_service_jti ctx.sql_lower jti r && is_live r) (mark ctx.now admin) db,
)

unfoldable pub verify_service_token_jti : (String → String) → AuthDb → String → Bool
verify_service_token_jti lower db jti = elim (find_row (is_service_jti lower jti) db.tokens) [
  | none ↦ false
  | some r ↦ is_live r
]
