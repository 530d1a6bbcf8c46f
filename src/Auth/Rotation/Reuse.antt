-- ===== src/Auth/Rotation/Reuse.antt =====
-- handleReuseBranch and revokeFamilyForReuse of src/auth/refresh-rotation.ts.
use mcp_coordinator.Prelude.{
  ℕ, ◌+◌, ◌-◌, String, Bool, false, ◌&&◌, ◌||◌, not, Option, none, some, ◌==◌, equals, leb,
  if◌then◌else◌,
}
use mcp_coordinator.Table.{find_row}
use mcp_coordinator.Auth.State.{
  AuthDb, Claims, Context, RefreshRow, Breach, hard_reuse, no_successor, replay_threshold_hit,
  rotated, reuse_detected, chain_revoked, suspicious_replay, not_in_org, same_reason, has_jti,
  is_live, mark,
}
use mcp_coordinator.Auth.Steps.{
  Step, done, thrown, Response, token_pair, respond, gets, modify, audit, write_oauth_error, ◌>>=◌,
  ◌>>◌, set_tokens,
}
use mcp_coordinator.Auth.Mint.{
  mint_access_jwt, mint_refresh_jwt, plain_access, access_ttl_s, refresh_ttl_s, compute_fingerprint,
  given_or,
}

abbrev pub grace_window_s : ℕ
grace_window_s = 10

abbrev pub replay_threshold : ℕ
replay_threshold = 3

abbrev pub in_family : Option String → RefreshRow → Bool
in_family none r = false
in_family (some family) r = if family == "" then false else equals r.family_id family

-- if (familyId) revokeFamilyForReuse(…, familyId, "reuse_detected")
unfoldable pub revoke_family_for_reuse : Context → Option String → AuthDb → AuthDb
revoke_family_for_reuse ctx family =
    set_tokens (λ r. in_family family r && is_live r) (mark ctx.now reuse_detected)

unfoldable pub revoke_chain : Context → Claims → RefreshRow → Breach → Step (Unit {0})
unfolding revoke_family_for_reuse
revoke_chain ctx claims row why =
    modify (revoke_family_for_reuse ctx row.family_id)
    >> (audit (chain_revoked claims.jti row.family_id why)
        >> write_oauth_error "invalid_grant" "Refresh token chain revoked" 401)

-- Beyond the grace window, or not revoked by a rotation.
abbrev pub is_hard_reuse : ℕ → RefreshRow → Bool
is_hard_reuse now row =
    leb grace_window_s (now - given_or row.revoked_at 0)
    || not (elim row.revoked_reason [ none ↦ false | some reason ↦ same_reason reason rotated ])

abbrev pub same_fingerprint : Option String → Option String → Bool
same_fingerprint none stored = false
same_fingerprint (some f) stored = equals stored f

-- The successor's pair again, at its own instant.
unfoldable pub remint : Context → RefreshRow → Response
remint ctx s =
    let iat = s.expires_at - refresh_ttl_s in
    let family = given_or s.family_id "" in
    token_pair
      (mint_access_jwt ctx (plain_access s.user_id s.org_id family "member") access_ttl_s (some iat)
        none)
      (mint_refresh_jwt ctx s.user_id s.org_id family s.parent_jti refresh_ttl_s s.jti (some iat))

unfoldable pub deny_retry : Context → Claims → RefreshRow → Step (Unit {0})
unfolding revoke_family_for_reuse
deny_retry ctx claims row =
    modify (revoke_family_for_reuse ctx row.family_id)
    >> (audit (not_in_org row.user_id claims.jti)
        >> write_oauth_error "invalid_grant" "User no longer in allowlisted org" 401)

-- UPDATE … SET replay_count = replay_count + 1 … RETURNING replay_count
abbrev pub replayed : RefreshRow → RefreshRow
replayed r = record r { replay_count = r.replay_count + 1 }

unfoldable pub count_replay : String → Step ℕ
count_replay jti db = elim (find_row (has_jti jti) db.tokens) [
  | none ↦ (thrown, db)
  | some r ↦ (done (r.replay_count + 1), set_tokens (has_jti jti) replayed db)
]

unfoldable pub judge_replay : Context → Claims → RefreshRow → ℕ → Step (Unit {0})
unfolding revoke_chain
judge_replay ctx claims row n =
    if leb replay_threshold n
    then revoke_chain ctx claims row replay_threshold_hit
    else audit (suspicious_replay claims.jti row.family_id n)
      >> write_oauth_error "invalid_grant" "Refresh token validation failed" 401

unfoldable pub suspect : Context → Claims → RefreshRow → Step (Unit {0})
unfolding count_replay judge_replay
suspect ctx claims row = count_replay claims.jti >>= judge_replay ctx claims row

-- Within the grace window, by the successor under idx_refresh_parent.
unfoldable pub within_grace :
    Context → Claims → RefreshRow → Bool → Option RefreshRow → Step (Unit {0})
unfolding revoke_chain remint deny_retry suspect
within_grace ctx claims row recheck_failed none = revoke_chain ctx claims row no_successor
within_grace ctx claims row recheck_failed (some successor) =
    if same_fingerprint (compute_fingerprint ctx) successor.consumer_fingerprint
    then (if recheck_failed then deny_retry ctx claims row else respond (remint ctx successor))
    else suspect ctx claims row

-- SELECT … WHERE parent_jti = ?
abbrev pub successor_row : String → AuthDb → Option RefreshRow
successor_row jti db = find_row (λ (r : RefreshRow). equals r.parent_jti jti) db.tokens

unfoldable pub handle_reuse_branch : Context → Claims → RefreshRow → Bool → Step (Unit {0})
unfolding revoke_chain within_grace
handle_reuse_branch ctx claims row recheck_failed =
    if is_hard_reuse ctx.now row
    then revoke_chain ctx claims row hard_reuse
    else gets (successor_row claims.jti) >>= within_grace ctx claims row recheck_failed
