-- ===== src/Auth/Rotation/Issued.antt =====
-- When refreshTokenGrant of src/auth/refresh-rotation.ts gives out tokens.
use mcp_coordinator.Prelude.{
  String, ◌≡◌, ◌⊎◌, sym, ap, ◌∙◌, subst, inl, inr, true, false, Option, some, equals, arith,
  Bool-cases, Option-cases,
}
use mcp_coordinator.Table.{find_row}
use mcp_coordinator.Auth.State.{AuthDb, Claims, Context, RefreshRow, has_jti, is_live}
use mcp_coordinator.Auth.Steps.{done, reply, token_pair}
use mcp_coordinator.Auth.Epoch.{check_token_epoch, Passes}
use mcp_coordinator.Auth.Outcomes.{tokens_inv}
use mcp_coordinator.Auth.Recheck.{RecheckOutcome, refresh_idp_membership_and_allowlist}
use mcp_coordinator.Auth.Rotation.{
  grant_token, grant_claims, grant_session, grant_row, grant_rotation, grant_member,
  rotate_or_reuse, refresh_token_grant,
}
use mcp_coordinator.Auth.Rotation.Guards.{
  Form, extract_refresh_token, verify_and_validate_claims, verify_refresh_jwt,
  check_not_service_account, select_refresh_row, check_idle_timeout,
}
use mcp_coordinator.Auth.Rotation.Mutes.{
  Mute-extract, Mute-verify, Mute-service, Mute-check_token_epoch, Mute-select,
  Mute-check_idle_timeout, Mute-recheck,
}
use mcp_coordinator.Auth.Rotation.Reuse.{handle_reuse_branch, is_hard_reuse, revoke_chain}

-- What holds of the tables before a grant that gives out tokens.
pub record Deserved (ctx : Context) (db : AuthDb) (token : String) (claims : Claims)
    (row : RefreshRow) : Type 0 where
  pub verified : verify_refresh_jwt ctx token ≡ some claims
  pub refresh : equals claims.typ "refresh" ≡ true
  pub personal : claims.service_account ≡ false
  pub current : Passes claims db
  pub found : find_row (has_jti claims.jti) db.tokens ≡ some row
  pub usable : (is_live row ≡ true) ⊎ (is_hard_reuse ctx.now row ≡ false)

extract_inv :
    (body : Option Form) (db mid : AuthDb) {token : String}
    → extract_refresh_token body db ≡ (done token, mid)
    → mid ≡ db
unfolding extract_refresh_token
extract_inv body db mid e = ground (arith, e)

verify_inv :
    (ctx : Context) (token : String) (db mid : AuthDb) (claims : Claims)
    → verify_and_validate_claims ctx token db ≡ (done claims, mid)
    → (verify_refresh_jwt ctx token ≡ some claims)
      × (equals claims.typ "refresh" ≡ true)
      × (mid ≡ db)
unfolding verify_and_validate_claims
verify_inv ctx token db mid claims e = elim (Option-cases (verify_refresh_jwt ctx token)) [
  | inl f ↦ absurd (cc (ap (λ r. r.0) (rw (f, verify_and_validate_claims) at e)))
  | inr (c, f) ↦ elim (Bool-cases (equals c.typ "refresh")) [
    | inr g ↦ absurd (cc (ap (λ r. r.0) (rw (f, g, verify_and_validate_claims) at e)))
    | inl g ↦
        let h = rw (f, g, verify_and_validate_claims) at e in
        let same : c ≡ claims = cc (ap (λ r. r.0) h) in
        (
          f ∙ ap some same,
          ap (λ (d : Claims). equals d.typ "refresh") (sym same) ∙ g,
          sym (ap (λ r. r.1) h),
        )
  ]
]

service_inv :
    (claims : Claims) (db mid : AuthDb)
    → check_not_service_account claims db ≡ (done tt, mid)
    → (claims.service_account ≡ false) × (mid ≡ db)
unfolding check_not_service_account
service_inv claims db mid e = (ground (arith, e), ground (arith, e))

epoch_inv :
    (claims : Claims) (db mid : AuthDb) → check_token_epoch claims db ≡ (done tt, mid) → mid ≡ db
unfolding check_token_epoch
epoch_inv claims db mid e = ground (arith, e)

select_inv :
    (claims : Claims) (db mid : AuthDb) (row : RefreshRow)
    → select_refresh_row claims db ≡ (done row, mid)
    → (find_row (has_jti claims.jti) db.tokens ≡ some row) × (mid ≡ db)
unfolding select_refresh_row
select_inv claims db mid row e = elim (Option-cases (find_row (has_jti claims.jti) db.tokens)) [
  | inl f ↦ absurd (cc (ap (λ r. r.0) (rw (f, select_refresh_row) at e)))
  | inr (r, f) ↦
      let g = rw (f, select_refresh_row) at e in (f ∙ cc (ap (λ r. r.0) g), sym (ap (λ r. r.1) g))
]

usable_inv :
    (ctx : Context) (claims : Claims) (row : RefreshRow) (o : RecheckOutcome) (db out : AuthDb)
    {x y : String}
    → rotate_or_reuse ctx claims row o db ≡ (reply (token_pair x y), out)
    → (is_live row ≡ true) ⊎ (is_hard_reuse ctx.now row ≡ false)
unfolding rotate_or_reuse handle_reuse_branch revoke_chain
usable_inv ctx claims row o db out e = elim (Bool-cases (is_live row)) [
  | inl live ↦ inl live
  | inr spent ↦ elim (Bool-cases (is_hard_reuse ctx.now row)) [
    | inr soft ↦ inr soft
    | inl hard ↦
        absurd
          (cc (ap (λ r. r.0) (rw (hard, handle_reuse_branch) at rw (spent, rotate_or_reuse) at e)))
  ]
]

-- Tokens are given out only for a refresh token that verifies, that is no service account's, that
-- the user's epoch and its floor let pass, and whose row is there and either unused or used up by a
-- rotation within the grace window.
pub issued_only_if :
    (ctx : Context) (body : Option Form) (db out : AuthDb) (x y : String)
    → refresh_token_grant ctx body db ≡ (reply (token_pair x y), out)
    → (token : String) × (claims : Claims) × (row : RefreshRow) × Deserved ctx db token claims row
unfolding refresh_token_grant
issued_only_if ctx body db out x y e =
    let (token, db₁, read, rest₁) =
      tokens_inv (extract_refresh_token body) (grant_token ctx) db (Mute-extract body) e in
    let (claims, db₂, checked, rest₂) =
      tokens_inv (verify_and_validate_claims ctx token) (grant_claims ctx) db₁
        (Mute-verify ctx token) rest₁ in
    let (u, db₃, person, rest₃) =
      tokens_inv (check_not_service_account claims) (λ n. grant_session ctx claims) db₂
        (Mute-service claims) rest₂ in
    let (v, db₄, fresh, rest₄) =
      tokens_inv (check_token_epoch claims) (λ n. grant_row ctx claims) db₃
        (Mute-check_token_epoch claims) rest₃ in
    let (row, db₅, seen, rest₅) =
      tokens_inv (select_refresh_row claims) (grant_rotation ctx claims) db₄ (Mute-select claims)
        rest₄ in
    let (w, db₆, idle, rest₆) =
      tokens_inv (check_idle_timeout ctx claims row) (λ n. grant_member ctx claims row) db₅
        (Mute-check_idle_timeout ctx claims row) rest₅ in
    let (o, db₇, member, rest₇) =
      tokens_inv (refresh_idp_membership_and_allowlist ctx claims row)
        (rotate_or_reuse ctx claims row) db₆ (Mute-recheck ctx claims row) rest₆ in
    let (verified, refresh, same₂) = verify_inv ctx token db₁ db₂ claims checked in
    let (personal, same₃) = service_inv claims db₂ db₃ person in
    let back₃ : db₃ ≡ db = same₃ ∙ same₂ ∙ extract_inv body db db₁ read in
    let same₄ : db₄ ≡ db₃ = epoch_inv claims db₃ db₄ fresh in
    let (found, same₅) = select_inv claims db₄ db₅ row seen in
    (
      token,
      claims,
      row,
      record {
        verified = verified;
        refresh = refresh;
        personal = personal;
        current = subst (Passes claims) back₃ (fresh ∙ ap (λ d. (done tt, d)) same₄);
        found =
            ap (λ (d : AuthDb). find_row (has_jti claims.jti) d.tokens) (sym (same₄ ∙ back₃))
            ∙ found;
        usable = usable_inv ctx claims row o db₇ out rest₇;
      },
    )
