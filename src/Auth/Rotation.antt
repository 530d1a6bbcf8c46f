-- ===== src/Auth/Rotation.antt =====
-- src/auth/refresh-rotation.ts: POST /api/auth/oauth/token with grant_type=refresh_token. The guards
-- are in Guards, the branch for a token that has been used before is in Reuse, and the theorems are
-- in Revoked.
pub mod Guards
pub mod Reuse
pub mod Families
pub mod Mutes
pub mod Issued
use mcp_coordinator.Prelude.{
  ℕ, String, Bool, true, false, ◌&&◌, ◌||◌, not, Option, none, some, List, ◌==◌, any, equals,
  is_some, if◌then◌else◌,
}
use mcp_coordinator.Table.{find_row, update_where}
use mcp_coordinator.Auth.State.{
  AuthDb, Claims, Context, RefreshRow, User, rotated, refresh_rotated, has_jti, is_live, mark,
}
use mcp_coordinator.Auth.Steps.{
  Step, Answer, done, reply, thrown, Response, token_pair, pure, respond, gets, modify, audit,
  write_oauth_error, ◌>>=◌, ◌>>◌, set_tokens,
}
use mcp_coordinator.Auth.Mint.{MintOptions, MintedPair, mint_token_pair, compute_fingerprint}
use mcp_coordinator.Auth.Recheck.{RecheckOutcome, refresh_idp_membership_and_allowlist}
use mcp_coordinator.Auth.Rotation.Guards.{
  Form, extract_refresh_token, verify_and_validate_claims, check_not_service_account,
  select_refresh_row, check_idle_timeout,
}
use mcp_coordinator.Auth.Rotation.Reuse.{handle_reuse_branch}
use mcp_coordinator.Auth.Epoch.{check_token_epoch}

-- The row that is still to be used, under the token's jti.
abbrev pub is_unused : String → RefreshRow → Bool
is_unused jti r = has_jti jti r && is_live r

-- Atomic rotation: `changes !== 1` loses the race. The jti is UNIQUE.
unfoldable pub claim_rotation : Context → Claims → Step (Unit {0})
claim_rotation ctx claims db =
    if any (is_unused claims.jti) db.tokens
    then (done tt, set_tokens (is_unused claims.jti) (mark ctx.now rotated) db)
    else write_oauth_error "invalid_grant" "Rotation race; please retry" 400 db

abbrev pub known_role : Option String → String
known_role none = "member"
known_role (some r) = if r == "admin" || r == "member" || r == "service" then r else "member"

abbrev pub role_of : Option User → String
role_of none = "member"
role_of (some u) = known_role u.role

abbrev pub has_other_child : String → String → AuthDb → Bool
has_other_child parent child db =
    any (λ (r : RefreshRow). equals r.parent_jti parent && not (has_jti child r)) db.tokens

abbrev pub adopt : String → RefreshRow → RefreshRow
adopt parent r = record r { parent_jti = some parent }

-- UPDATE refresh_tokens SET parent_jti = ? WHERE jti = ?, where parent_jti is UNIQUE.
unfoldable pub set_parent : String → String → Step (Unit {0})
set_parent parent child db =
    if has_other_child parent child db
    then (thrown, db)
    else (done tt, set_tokens (has_jti child) (adopt parent) db)

abbrev pub successor_of : Context → RefreshRow → Option User → MintOptions
successor_of ctx row user = record {
  user_id = row.user_id;
  primary_org_id = row.org_id;
  role = role_of user;
  family_id = row.family_id;
  fingerprint = compute_fingerprint ctx;
}

abbrev pub told : Claims → MintedPair → Step MintedPair
told claims pair = audit (refresh_rotated claims.jti pair.refresh_jti pair.family_id) >> pure pair

abbrev pub finish_with : Claims → MintedPair → Step MintedPair
finish_with claims pair = set_parent claims.jti pair.refresh_jti >> told claims pair

-- What follows the claim, which other requests come before: the handler awaits the minting. The INSERT
-- of the successor and the UPDATE of its parent_jti, one await later, are one step here.
unfoldable pub finish_rotation : Context → Claims → RefreshRow → Option User → Step MintedPair
unfolding set_parent
finish_rotation ctx claims row user =
    mint_token_pair ctx (successor_of ctx row user) >>= finish_with claims

abbrev pub hand_over : MintedPair → Step (Unit {0})
hand_over pair = respond (token_pair pair.access_jwt pair.refresh_jwt)

abbrev pub finish_and_reply : Context → Claims → RefreshRow → Option User → Step (Unit {0})
finish_and_reply ctx claims row user = finish_rotation ctx claims row user >>= hand_over

unfoldable pub rotate_refresh_token : Context → Claims → RefreshRow → Option User → Step (Unit {0})
unfolding claim_rotation finish_rotation
rotate_refresh_token ctx claims row user =
    claim_rotation ctx claims >> finish_and_reply ctx claims row user

-- Steps 8 and 9.
unfoldable pub rotate_or_reuse : Context → Claims → RefreshRow → RecheckOutcome → Step (Unit {0})
unfolding rotate_refresh_token
rotate_or_reuse ctx claims row outcome =
    let recheck_failed = outcome.performed && not (is_some outcome.allowlist_match) in
    if is_live row
    then rotate_refresh_token ctx claims row outcome.user_row
    else handle_reuse_branch ctx claims row recheck_failed

abbrev pub grant_member : Context → Claims → RefreshRow → Step (Unit {0})
grant_member ctx claims row =
    refresh_idp_membership_and_allowlist ctx claims row >>= rotate_or_reuse ctx claims row

abbrev pub grant_rotation : Context → Claims → RefreshRow → Step (Unit {0})
grant_rotation ctx claims row = check_idle_timeout ctx claims row >> grant_member ctx claims row

abbrev pub grant_row : Context → Claims → Step (Unit {0})
grant_row ctx claims = select_refresh_row claims >>= grant_rotation ctx claims

abbrev pub grant_session : Context → Claims → Step (Unit {0})
grant_session ctx claims = check_token_epoch claims >> grant_row ctx claims

abbrev pub grant_claims : Context → Claims → Step (Unit {0})
grant_claims ctx claims = check_not_service_account claims >> grant_session ctx claims

abbrev pub grant_token : Context → String → Step (Unit {0})
grant_token ctx token = verify_and_validate_claims ctx token >>= grant_claims ctx

-- refreshTokenGrant, from the request's form; none is a body that could not be read.
unfoldable pub refresh_token_grant : Context → Option Form → Step (Unit {0})
unfolding rotate_or_reuse
refresh_token_grant ctx body = extract_refresh_token body >>= grant_token ctx
