-- ===== src/Auth/Spent/Rotating.antt =====
-- The steps of src/auth/refresh-rotation.ts revive no revoked row.
use mcp_coordinator.Prelude.{
  ℕ, ◌+◌, String, ◌≡◌, refl, inl, inr, Bool, true, false, not, ◌&&◌, Option, none, some, [], ◌∷◌,
  All, All-append, is_some, arith, Bool-cases, Option-cases,
}
use mcp_coordinator.Table.{insert_row, find_row}
use mcp_coordinator.Auth.State.{
  Claims, Context, RefreshRow, RevokedReason, mark, is_live, has_jti, User, Breach, rotated,
  replay_threshold_hit,
}
use mcp_coordinator.Auth.Steps.{pure, modify, set_tokens}
use mcp_coordinator.Auth.Epoch.{check_token_epoch}
use mcp_coordinator.Auth.Mint.{
  insert_token, violates, mint_token_pair, fresh_row, MintOptions, minted,
}
use mcp_coordinator.Auth.Recheck.{RecheckOutcome}
use mcp_coordinator.Auth.Rotation.Guards.{check_idle_timeout, expire_idle}
use mcp_coordinator.Auth.Rotation.Reuse.{
  handle_reuse_branch, within_grace, suspect, count_replay, revoke_chain, revoke_family_for_reuse,
  deny_retry, in_family, judge_replay, replayed, successor_row,
}
use mcp_coordinator.Auth.Rotation.{
  claim_rotation, finish_rotation, rotate_refresh_token, rotate_or_reuse, set_parent, successor_of,
  told, finish_with, hand_over, finish_and_reply,
}
use mcp_coordinator.Auth.Spent.{IsBlind, Buries, Buries-set_tokens, Buries-bind, Buries-then}

module _ (q : RefreshRow → Bool) (blind : IsBlind q) where
  pub Buries-mark :
      (p : RefreshRow → Bool) (t : ℕ) (reason : RevokedReason)
      → Buries q (modify (set_tokens p (mark t reason)))
  Buries-mark p t reason =
      Buries-set_tokens q p (mark t reason) λ r. (blind.marked t reason r, λ e. refl)

  pub Buries-check_token_epoch : (claims : Claims) → Buries q (check_token_epoch claims)
  unfolding check_token_epoch
  Buries-check_token_epoch claims db d = ground (arith, d)

  pub Buries-check_idle_timeout :
      (ctx : Context) (claims : Claims) (row : RefreshRow)
      → Buries q (check_idle_timeout ctx claims row)
  unfolding check_idle_timeout expire_idle
  Buries-check_idle_timeout ctx claims row db d = ground (
    arith,
    Buries-mark (λ r. has_jti claims.jti r && is_live r) ctx.now RevokedReason.idle_expired db d,
  )

  Buries-revoke_chain :
      (ctx : Context) (claims : Claims) (row : RefreshRow) (why : Breach)
      → Buries q (revoke_chain ctx claims row why)
  unfolding revoke_chain revoke_family_for_reuse
  Buries-revoke_chain ctx claims row why db d =
      Buries-mark (λ r. in_family row.family_id r && is_live r) ctx.now RevokedReason.reuse_detected
        db d

  Buries-count_replay : (jti : String) → Buries q (count_replay jti)
  unfolding count_replay
  Buries-count_replay jti db d =
      let more =
        Buries-set_tokens q (has_jti jti) replayed
          (λ r. (blind.counted (r.replay_count + 1) r, λ e. e)) db d in
      elim (Option-cases (find_row (has_jti jti) db.tokens)) [
        | inl e ↦ rw (e, count_replay) d
        | inr (r, e) ↦ rw (e, count_replay) more
      ]

  Buries-judge_replay :
      (ctx : Context) (claims : Claims) (row : RefreshRow) (n : ℕ)
      → Buries q (judge_replay ctx claims row n)
  unfolding judge_replay
  Buries-judge_replay ctx claims row n db d =
      ground (arith, d, Buries-revoke_chain ctx claims row replay_threshold_hit db d)

  Buries-suspect :
      (ctx : Context) (claims : Claims) (row : RefreshRow) → Buries q (suspect ctx claims row)
  unfolding suspect
  Buries-suspect ctx claims row =
      Buries-bind q (count_replay claims.jti) (judge_replay ctx claims row)
        (Buries-count_replay claims.jti) (Buries-judge_replay ctx claims row)

  Buries-within_grace :
      (ctx : Context) (claims : Claims) (row : RefreshRow) (recheck_failed : Bool)
      (o : Option RefreshRow)
      → Buries q (within_grace ctx claims row recheck_failed o)
  unfolding within_grace deny_retry revoke_family_for_reuse
  Buries-within_grace ctx claims row recheck_failed none db d =
      Buries-revoke_chain ctx claims row Breach.no_successor db d
  Buries-within_grace ctx claims row recheck_failed (some s) db d = ground (
    arith,
    Buries-suspect ctx claims row db d,
    Buries-mark (λ r. in_family row.family_id r && is_live r) ctx.now RevokedReason.reuse_detected
        db d,
  )

  pub Buries-handle_reuse_branch :
      (ctx : Context) (claims : Claims) (row : RefreshRow) (recheck_failed : Bool)
      → Buries q (handle_reuse_branch ctx claims row recheck_failed)
  unfolding handle_reuse_branch
  Buries-handle_reuse_branch ctx claims row recheck_failed db d = ground (
    arith,
    Buries-revoke_chain ctx claims row Breach.hard_reuse db d,
    Buries-within_grace ctx claims row recheck_failed (successor_row claims.jti db) db d,
  )

  pub Buries-claim_rotation :
      (ctx : Context) (claims : Claims) → Buries q (claim_rotation ctx claims)
  unfolding claim_rotation
  Buries-claim_rotation ctx claims db d =
      ground (arith, d, Buries-mark (λ r. has_jti claims.jti r && is_live r) ctx.now rotated db d)

  Buries-set_parent : (parent child : String) → Buries q (set_parent parent child)
  unfolding set_parent
  Buries-set_parent parent child db d = ground (
    arith,
    d,
    Buries-set_tokens q (has_jti child) (λ r. record r { parent_jti = some parent })
        (λ r. (blind.linked (some parent) r, λ e. e)) db d,
  )

  pub Buries-insert_token : (row : RefreshRow) → q row ≡ false → Buries q (insert_token row)
  unfolding insert_token
  Buries-insert_token row fresh db d =
      let more : All (λ r. q r ≡ true → is_live r ≡ false) (insert_row row db.tokens) =
        All-append (λ r. q r ≡ true → is_live r ≡ false) db.tokens (row ∷ []) d
          ((λ e. absurd (cc)), tt) in
      elim (Bool-cases (violates row db)) [
        | inl e ↦ rw (e, insert_token) d
        | inr e ↦ rw (e, insert_token) more
      ]

  pub Buries-mint_token_pair :
      (ctx : Context) (opts : MintOptions)
      → q (fresh_row ctx opts) ≡ false
      → Buries q (mint_token_pair ctx opts)
  unfolding mint_token_pair
  Buries-mint_token_pair ctx opts fresh =
      Buries-then q (insert_token (fresh_row ctx opts)) (pure (minted ctx opts))
        (Buries-insert_token (fresh_row ctx opts) fresh) (λ db d. d)

  pub Buries-finish_rotation :
      (ctx : Context) (claims : Claims) (row : RefreshRow) (user : Option User)
      → q (fresh_row ctx (successor_of ctx row user)) ≡ false
      → Buries q (finish_rotation ctx claims row user)
  unfolding finish_rotation
  Buries-finish_rotation ctx claims row user fresh =
      Buries-bind q (mint_token_pair ctx (successor_of ctx row user)) (finish_with claims)
        (Buries-mint_token_pair ctx (successor_of ctx row user) fresh)
        λ pair.
          Buries-then q (set_parent claims.jti pair.refresh_jti) (told claims pair)
            (Buries-set_parent claims.jti pair.refresh_jti) (λ db d. d)

  Buries-rotate_refresh_token :
      (ctx : Context) (claims : Claims) (row : RefreshRow) (user : Option User)
      → q (fresh_row ctx (successor_of ctx row user)) ≡ false
      → Buries q (rotate_refresh_token ctx claims row user)
  unfolding rotate_refresh_token
  Buries-rotate_refresh_token ctx claims row user fresh =
      Buries-then q (claim_rotation ctx claims) (finish_and_reply ctx claims row user)
        (Buries-claim_rotation ctx claims)
        (Buries-bind q (finish_rotation ctx claims row user) hand_over
          (Buries-finish_rotation ctx claims row user fresh) (λ pair db d. d))

  pub Buries-rotate_or_reuse :
      (ctx : Context) (claims : Claims) (row : RefreshRow) (o : RecheckOutcome)
      → ((opts : MintOptions) → q (fresh_row ctx opts) ≡ false)
      → Buries q (rotate_or_reuse ctx claims row o)
  unfolding rotate_or_reuse
  Buries-rotate_or_reuse ctx claims row o fresh db d = ground (
    arith,
    Buries-rotate_refresh_token ctx claims row o.user_row (fresh (successor_of ctx row o.user_row))
        db d,
    Buries-handle_reuse_branch ctx claims row (o.performed && not (is_some o.allowlist_match)) db d,
  )
