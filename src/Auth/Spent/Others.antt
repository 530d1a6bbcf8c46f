-- ===== src/Auth/Spent/Others.antt =====
-- Logging out, service tokens and minting revive no revoked row: src/auth/logout.ts,
-- src/auth/service-tokens.ts and src/auth/oauth-finalize.ts.
use mcp_coordinator.Prelude.{
  String, ◌≡◌, inl, inr, Bool, false, ◌&&◌, Option, none, some, is_some, arith, Bool-cases,
}
use mcp_coordinator.Table.{find_row}
use mcp_coordinator.RateLimit.{Config}
use mcp_coordinator.Auth.State.{AuthDb, Context, RefreshRow, RevokedReason, has_jti, is_live}
use mcp_coordinator.Auth.Epoch.{bump_token_epoch}
use mcp_coordinator.Auth.Mint.{insert_token}
use mcp_coordinator.Auth.Rotation.Guards.{Form}
use mcp_coordinator.Auth.Rotation.Reuse.{in_family}
use mcp_coordinator.Auth.Logout.{
  Session, Authenticated, require_session, handle_logout, limit, end_user, end_family,
  handle_logout_all, revoke_row, revoke_presented, handle_revoke, presented, is_of_user, leave,
  leave_all, bump_and_leave, end_everywhere, answer_revoke, finish_revoke, logout_all_rate_limit,
  limit_key, limit_text,
}
use mcp_coordinator.Auth.ServiceTokens.{
  IssueOptions, issue_service_token, refusal_of, service_row, revoke_service_token, is_service_jti,
  hand_out,
}
use mcp_coordinator.Auth.Spent.{Dead, IsBlind, Buries, Buries-bind, Buries-then}
use mcp_coordinator.Auth.Spent.Rotating.{Buries-mark, Buries-insert_token}
use mcp_coordinator.Auth.Spent.Granting.{Buries-of_Quiet, bump_token_epoch-Quiet}

module _ (q : RefreshRow → Bool) (blind : IsBlind q) where
  Buries-require_session : (auth : Authenticated) → Buries q (require_session auth)
  unfolding require_session
  Buries-require_session auth db d = ground (arith, d)

  pub Buries-handle_logout :
      (ctx : Context) (auth : Authenticated) → Buries q (handle_logout ctx auth)
  unfolding handle_logout end_family
  Buries-handle_logout ctx auth =
      Buries-bind q (require_session auth) (leave ctx) (Buries-require_session auth) λ s db d.
        Buries-mark q blind (λ r. in_family s.family_id r && is_live r) ctx.now RevokedReason.logout
          db d

  Buries-limit :
      (ctx : Context) (key : String) (cfg : Config) (text : String)
      → Buries q (limit ctx key cfg text)
  unfolding limit
  Buries-limit ctx key cfg text db d = ground (arith, d)

  pub Buries-handle_logout_all :
      (ctx : Context) (auth : Authenticated) → Buries q (handle_logout_all ctx auth)
  unfolding handle_logout_all end_user
  Buries-handle_logout_all ctx auth =
      Buries-bind q (require_session auth) (leave_all ctx) (Buries-require_session auth) λ s.
        Buries-then q (limit ctx (limit_key s) logout_all_rate_limit limit_text)
          (bump_and_leave ctx s) (Buries-limit ctx (limit_key s) logout_all_rate_limit limit_text)
          (Buries-bind q (bump_token_epoch ctx.wall s.user_id) (end_everywhere ctx s)
            (Buries-of_Quiet q (bump_token_epoch ctx.wall s.user_id)
              (bump_token_epoch-Quiet ctx.wall s.user_id))
            λ n db d.
              Buries-mark q blind (λ r. is_of_user s.user_id r && is_live r) ctx.now
                RevokedReason.logout_all db d)

  Buries-revoke_row :
      (ctx : Context) (s : Session) (jti : String) (o : Option RefreshRow)
      → Buries q (revoke_row ctx s jti o)
  unfolding revoke_row
  Buries-revoke_row ctx s jti none db d = d
  Buries-revoke_row ctx s jti (some row) db d = ground (
    arith,
    d,
    Buries-mark q blind (λ r. has_jti jti r && is_live r) ctx.now RevokedReason.admin db d,
  )

  Buries-revoke_presented :
      (ctx : Context) (s : Session) (o : Option String) → Buries q (revoke_presented ctx s o)
  unfolding revoke_presented
  Buries-revoke_presented ctx s none db d = d
  Buries-revoke_presented ctx s (some jti) db d =
      Buries-revoke_row ctx s jti (find_row (has_jti jti) db.tokens) db d

  pub Buries-handle_revoke :
      (ctx : Context) (auth : Authenticated) (body : Option Form)
      → Buries q (handle_revoke ctx auth body)
  unfolding handle_revoke
  Buries-handle_revoke ctx auth body =
      Buries-bind q (require_session auth) (answer_revoke ctx body) (Buries-require_session auth)
        λ s.
          Buries-then q (revoke_presented ctx s (presented ctx body)) finish_revoke
            (Buries-revoke_presented ctx s (presented ctx body)) (λ db d. d)

  pub Buries-issue_service_token :
      (ctx : Context) (opts : IssueOptions)
      → q (service_row ctx opts) ≡ false
      → Buries q (issue_service_token ctx opts)
  unfolding issue_service_token
  Buries-issue_service_token ctx opts fresh db d =
      elim (Bool-cases (is_some (refusal_of ctx opts db))) [
        | inl e ↦ rw (e, issue_service_token) d
        | inr e ↦
            rw (e, issue_service_token)
              (Buries-then q (insert_token (service_row ctx opts)) (hand_out ctx opts)
                (Buries-insert_token q blind (service_row ctx opts) fresh) (λ db d. d) db d)
      ]

  pub Dead-revoke_service_token :
      (ctx : Context) (jti : String) (db : AuthDb)
      → Dead q db
      → Dead q (revoke_service_token ctx jti db).1
  unfolding revoke_service_token
  Dead-revoke_service_token ctx jti db d =
      Buries-mark q blind (λ r. is_service_jti ctx.sql_lower jti r && is_live r) ctx.now
        RevokedReason.admin db d
