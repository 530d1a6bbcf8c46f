-- ===== src/Auth/Rotation/Guards.antt =====
-- Steps 1 to 6 of the rotation but the epoch: src/auth/refresh-rotation.ts, which reads the token,
-- verifies it, finds its row and checks how long it has been idle.
use Prim.Native.Char.{code}
use mcp_coordinator.Prelude.{
  ℕ, ◌+◌, ◌-◌, ◌*◌, String, Bool, true, false, ◌&&◌, ◌||◌, Option, none, some, List, [], ◌∷◌, ◌==◌,
  equals, is_empty, eq_ℕ, leb, ltb, if◌then◌else◌,
}
use mcp_coordinator.Table.{find_row}
use mcp_coordinator.Auth.State.{
  Claims, Context, RefreshRow, Invalid, verification_failed, wrong_token_type, row_not_found,
  invalid_token, refresh_idle_expired, idle_expired, has_jti, is_live, mark,
}
use mcp_coordinator.Auth.Steps.{
  Step, done, thrown, pure, modify, audit, write_oauth_error, ◌>>◌, set_tokens,
}
use mcp_coordinator.Auth.Mint.{verification_key, strip_slash}
use mcp_coordinator.Auth.Membership.{idle_timeout_setting}

-- The code points of a text: its bytes, if it is ASCII.
abbrev codes : String → List ℕ
codes String.[] = []
codes (String.◌∷◌ c s) = code c ∷ codes s

abbrev is_digit : ℕ → Bool
is_digit c = leb b'0' c && leb c b'9'

abbrev pub seconds_of : ℕ → ℕ → Option ℕ
seconds_of unit n =
    if eq_ℕ unit b's'
    then some n
    else if eq_ℕ unit b'm'
    then some (n * 60)
    else if eq_ℕ unit b'h'
    then some (n * 3600)
    else if eq_ℕ unit b'd'
    then some (n * 86400)
    else none

-- /^(\d+)([smhd])$/ from where `n` has been read, and whether a digit has.
unfoldable pub read_duration : ℕ → Bool → List ℕ → Option ℕ
read_duration n seen [] = none
read_duration n seen (c ∷ rest) =
    let more = read_duration (n * 10 + (c - b'0')) true rest in
    if is_digit c then more else if seen && is_empty rest then seconds_of c n else none

-- parseDuration; none where it throws.
unfoldable pub parse_duration : String → Option ℕ
unfolding read_duration
parse_duration s = read_duration 0 false (codes s)

abbrev pub Form : Type 0
Form = List (String × String)

-- for (const [k, v] of params) out[k] = v; out[key]
unfoldable pub form_field : String → Form → Option String
form_field key [] = none
form_field key ((k, v) ∷ rest) = elim (form_field key rest) [
  | some later ↦ some later
  | none ↦ if k == key then some v else none
]

unfoldable pub extract_refresh_token : Option Form → Step String
unfolding form_field
extract_refresh_token none = write_oauth_error "invalid_request" "Could not parse body" 400
extract_refresh_token (some form) = elim (form_field "refresh_token" form) [
  | none ↦ write_oauth_error "invalid_request" "Missing refresh_token" 400
  | some token ↦
      if token == ""
      then write_oauth_error "invalid_request" "Missing refresh_token" 400
      else pure token
]

abbrev pub clock_tolerance_s : ℕ
clock_tolerance_s = 30

unfoldable pub verify_refresh_jwt : Context → String → Option Claims
verify_refresh_jwt ctx token =
    ctx.jwt_verify (verification_key ctx.keys) (strip_slash ctx.public_url) clock_tolerance_s token

abbrev pub refuse_token : {A : Type 0} → Invalid → String → Step A
refuse_token why text = audit (invalid_token why) >> write_oauth_error "invalid_grant" text 400

unfoldable pub verify_and_validate_claims : Context → String → Step Claims
unfolding verify_refresh_jwt
verify_and_validate_claims ctx token = elim (verify_refresh_jwt ctx token) [
  | none ↦ refuse_token verification_failed "Token verification failed"
  | some claims ↦
      if equals claims.typ "refresh"
      then pure claims
      else refuse_token wrong_token_type "Token verification failed"
]

unfoldable pub check_not_service_account : Claims → Step (Unit {0})
check_not_service_account claims =
    if claims.service_account
    then write_oauth_error "invalid_grant"
        "Service tokens do not rotate. Mint a new one via admin CLI." 400
    else pure tt

abbrev found_or_unknown : Option RefreshRow → Step RefreshRow
found_or_unknown none = refuse_token row_not_found "Unknown refresh token"
found_or_unknown (some row) = pure row

unfoldable pub select_refresh_row : Claims → Step RefreshRow
select_refresh_row claims db = found_or_unknown (find_row (has_jti claims.jti) db.tokens) db

abbrev pub last_used : Claims → RefreshRow → ℕ
last_used claims row = elim row.last_used_at [ none ↦ claims.iat | some t ↦ t ]

unfoldable pub expire_idle : Context → Claims → RefreshRow → Step (Unit {0})
expire_idle ctx claims row =
    modify (set_tokens (λ r. has_jti claims.jti r && is_live r) (mark ctx.now idle_expired))
    >> (audit (refresh_idle_expired claims.jti row.user_id)
        >> write_oauth_error "invalid_grant" "Session idle timeout" 400)

unfoldable pub check_idle_timeout : Context → Claims → RefreshRow → Step (Unit {0})
unfolding parse_duration expire_idle
check_idle_timeout ctx claims row db =
    let raw = idle_timeout_setting ctx row.org_id db in
    if raw == "" || raw == "0" then (done tt, db) else elim (parse_duration raw) [
      | none ↦ (thrown, db)
      | some limit ↦
          if ltb limit (ctx.now - last_used claims row)
          then expire_idle ctx claims row db
          else (done tt, db)
    ]
