-- ===== src/Auth/Logout.antt =====
-- src/auth/logout.ts: the end of a session here, everywhere, or of one token. What authenticateRequest
-- of src/auth.ts found of the caller is an argument; the cookies are outside the model.
use Prim.Native.String.{◌++◌}
use mcp_coordinator.Prelude.{
  ℕ, ◌⊎◌, inl, inr, String, Bool, ◌&&◌, ◌||◌, Option, none, some, ◌==◌, or_null, if◌then◌else◌,
}
use mcp_coordinator.Table.{find_row}
use mcp_coordinator.RateLimit.{Config, allowed, denied, check}
use mcp_coordinator.Auth.State.{
  AuthDb, Context, RefreshRow, admin, logout, logout_all, logout_local, logout_global,
  token_revoked, has_jti, is_live, mark,
}
use mcp_coordinator.Auth.Steps.{
  Step, done, reply, empty, app_error, rate_limited, pure, respond, gets, modify, audit, ◌>>=◌,
  ◌>>◌, set_tokens,
}
use mcp_coordinator.Auth.Epoch.{bump_token_epoch}
use mcp_coordinator.Auth.Rotation.Guards.{Form, form_field}
use mcp_coordinator.Auth.Rotation.Reuse.{in_family}

-- The claims of an authenticated caller.
pub record Session : Type 0 where
  pub user_id : String
  pub family_id : Option String
  pub role : String

-- The caller, or the status and the error of a refusal.
abbrev pub Authenticated : Type 0
Authenticated = Session ⊎ (ℕ × String)

-- emit401
unfoldable pub require_session : Authenticated → Step Session
require_session (inl s) = pure s
require_session (inr (status, error)) = respond (app_error status "UNAUTHORIZED" error)

unfoldable pub end_family : Context → Session → AuthDb → AuthDb
end_family ctx s = set_tokens (λ r. in_family s.family_id r && is_live r) (mark ctx.now logout)

abbrev pub leave : Context → Session → Step (Unit {0})
leave ctx s =
    modify (end_family ctx s) >> (audit (logout_local s.user_id s.family_id) >> respond (empty 204))

unfoldable pub handle_logout : Context → Authenticated → Step (Unit {0})
unfolding require_session end_family
handle_logout ctx auth = require_session auth >>= leave ctx

abbrev pub logout_all_rate_limit : Config
logout_all_rate_limit = record { per = 5; window_seconds = 3600 }

-- ctx.rateLimiter.check, and the 429 of a refusal.
unfoldable pub limit : Context → String → Config → String → Step (Unit {0})
limit ctx key cfg text db =
    let (answer, buckets) = check key cfg ctx.now db.buckets in
    let db' = record db { buckets = buckets } in
    elim answer [
      | allowed remaining reset_at ↦ (done tt, db')
      | denied seconds ↦ (reply (rate_limited seconds text), db')
    ]

abbrev pub is_of_user : String → RefreshRow → Bool
is_of_user user r = r.user_id == user

unfoldable pub end_user : Context → String → AuthDb → AuthDb
end_user ctx user = set_tokens (λ r. is_of_user user r && is_live r) (mark ctx.now logout_all)

abbrev pub end_everywhere : Context → Session → ℕ → Step (Unit {0})
end_everywhere ctx s epoch =
    modify (end_user ctx s.user_id) >> (audit (logout_global s.user_id) >> respond (empty 204))

abbrev pub bump_and_leave : Context → Session → Step (Unit {0})
bump_and_leave ctx s = bump_token_epoch ctx.wall s.user_id >>= end_everywhere ctx s

abbrev pub limit_key : Session → String
limit_key s = "logout-all:" ++ s.user_id

abbrev pub limit_text : String
limit_text = "Too many logout-all requests"

abbrev pub leave_all : Context → Session → Step (Unit {0})
leave_all ctx s = limit ctx (limit_key s) logout_all_rate_limit limit_text >> bump_and_leave ctx s

unfoldable pub handle_logout_all : Context → Authenticated → Step (Unit {0})
unfolding require_session limit end_user
handle_logout_all ctx auth = require_session auth >>= leave_all ctx

-- The jti of a token that is presented, whatever its signature; none where there is nothing to do.
abbrev pub presented : Context → Option Form → Option String
presented ctx none = none
presented ctx (some form) = elim (or_null (form_field "token" form)) [
  | none ↦ none
  | some token ↦ or_null (ctx.decode_jti token)
]

abbrev pub may_revoke : Session → RefreshRow → Bool
may_revoke s row = row.user_id == s.user_id || s.role == "admin"

unfoldable pub revoke_row : Context → Session → String → Option RefreshRow → Step (Unit {0})
revoke_row ctx s jti none = pure tt
revoke_row ctx s jti (some row) =
    if is_live row && may_revoke s row
    then modify (set_tokens (λ r. has_jti jti r && is_live r) (mark ctx.now admin))
      >> audit (token_revoked jti s.user_id)
    else pure tt

unfoldable pub revoke_presented : Context → Session → Option String → Step (Unit {0})
unfolding revoke_row
revoke_presented ctx s none = pure tt
revoke_presented ctx s (some jti) =
    gets (λ db. find_row (has_jti jti) db.tokens) >>= revoke_row ctx s jti

abbrev pub finish_revoke : Step (Unit {0})
finish_revoke = respond (empty 200)

abbrev pub answer_revoke : Context → Option Form → Session → Step (Unit {0})
answer_revoke ctx body s = revoke_presented ctx s (presented ctx body) >> finish_revoke

unfoldable pub handle_revoke : Context → Authenticated → Option Form → Step (Unit {0})
unfolding require_session revoke_presented
handle_revoke ctx auth body = require_session auth >>= answer_revoke ctx body
