-- ===== src/Auth/Traffic.antt =====
-- Everything that touches refresh_tokens, in any order: the handlers of src/auth/*.ts and the sweeper
-- of src/sweeper/index.ts. A grant runs whole, or stops at an await and is taken up again later,
-- with what it has read by then: the row, the user and the recheck's outcome may be out of date.
use mcp_coordinator.Prelude.{
  ℕ, ◌-◌, ◌*◌, String, ◌≡◌, refl, sym, ap, ◌∙◌, subst, inl, inr, Bool, true, false, Option, none,
  some, List, [], ◌∷◌, ◌==◌, any, All, All-Mem, any_witness, if◌then◌else◌, arith, Bool-cases,
  Option-cases, ◌&&◌,
}
use mcp_coordinator.Table.{update_where, find_row, find_row-Mem}
use mcp_coordinator.Auth.State.{
  AuthDb, Claims, Context, RefreshRow, User, RevokedReason, mark, rotated, has_jti, is_live,
}
use mcp_coordinator.Auth.Steps.{done, reply, oauth_error, set_tokens}
use mcp_coordinator.Auth.Epoch.{note_epoch_bump, bump_token_epoch, bump_token_epoch_all_users}
use mcp_coordinator.Auth.Mint.{MintOptions, mint_token_pair, fresh_row}
use mcp_coordinator.Auth.Recheck.{RecheckOutcome, refresh_idp_membership_and_allowlist}
use mcp_coordinator.Auth.Rotation.Guards.{Form}
use mcp_coordinator.Auth.Rotation.{
  refresh_token_grant, rotate_or_reuse, claim_rotation, finish_rotation, is_unused, successor_of,
}
use mcp_coordinator.Auth.Logout.{Authenticated, handle_logout, handle_logout_all, handle_revoke}
use mcp_coordinator.Auth.ServiceTokens.{
  IssueOptions, issue_service_token, revoke_service_token, service_row, is_service_jti,
  verify_service_token_jti,
}
use mcp_coordinator.Auth.Provision.{
  ProvisionArgs, provision_user_with_auto_provision_gate, provision_user, create_user,
}
use mcp_coordinator.Auth.Purge.{
  purge_tokens, All-delete_limit, batch_size, is_long_expired, refresh_expired_retention_days,
  seconds_per_day,
}
use mcp_coordinator.Auth.Spent.{Dead, IsBlind, Buries}
use mcp_coordinator.Auth.Spent.Rotating.{
  Buries-claim_rotation, Buries-finish_rotation, Buries-mint_token_pair, Buries-rotate_or_reuse,
}
use mcp_coordinator.Auth.Spent.Granting.{
  Buries-recheck, Buries-refresh_token_grant, Buries-of_Quiet, bump_token_epoch-Quiet,
}
use mcp_coordinator.Auth.Spent.Others.{
  Buries-handle_logout, Buries-handle_logout_all, Buries-handle_revoke, Buries-issue_service_token,
  Dead-revoke_service_token,
}

pub data Event : Type 0 where
  grant : Context → Option Form → Event
  recheck : Context → Claims → RefreshRow → Event
  resume : Context → Claims → RefreshRow → RecheckOutcome → Event
  claim : Context → Claims → Event
  finish : Context → Claims → RefreshRow → Option User → Event
  provision : Context → ProvisionArgs → Event
  mint : Context → MintOptions → Event
  log_out : Context → Authenticated → Event
  log_out_all : Context → Authenticated → Event
  revoke : Context → Authenticated → Option Form → Event
  issue : Context → IssueOptions → Event
  revoke_service : Context → String → Event
  bump_one : ℕ → String → Event
  bump_all : ℕ → Event
  hear : String → ℕ → Event
  purge : ℕ → ℕ → Event

unfoldable pub step : Event → AuthDb → AuthDb
step (grant ctx body) db = (refresh_token_grant ctx body db).1
step (recheck ctx claims row) db = (refresh_idp_membership_and_allowlist ctx claims row db).1
step (resume ctx claims row o) db = (rotate_or_reuse ctx claims row o db).1
step (claim ctx claims) db = (claim_rotation ctx claims db).1
step (finish ctx claims row user) db = (finish_rotation ctx claims row user db).1
step (provision ctx args) db = (provision_user_with_auto_provision_gate ctx args db).1
step (mint ctx opts) db = (mint_token_pair ctx opts db).1
step (log_out ctx auth) db = (handle_logout ctx auth db).1
step (log_out_all ctx auth) db = (handle_logout_all ctx auth db).1
step (revoke ctx auth body) db = (handle_revoke ctx auth body db).1
step (issue ctx opts) db = (issue_service_token ctx opts db).1
step (revoke_service ctx jti) db = (revoke_service_token ctx jti db).1
step (bump_one wall user) db = (bump_token_epoch wall user db).1
step (bump_all wall) db = bump_token_epoch_all_users wall db
step (hear user epoch) db = record db { floors = note_epoch_bump user epoch db.floors }
step (purge now days) db = purge_tokens now days db

abbrev pub run : List Event → AuthDb → AuthDb
run [] db = db
run (e ∷ es) db = run es (step e db)

-- The random identifier that an event may give to a new row.
abbrev pub minted_jti : Event → Option String
minted_jti (grant ctx body) = some ctx.new_jti
minted_jti (resume ctx claims row o) = some ctx.new_jti
minted_jti (finish ctx claims row user) = some ctx.new_jti
minted_jti (mint ctx opts) = some ctx.new_jti
minted_jti (issue ctx opts) = some ctx.new_jti
minted_jti e = none

abbrev pub Differs : String → Option String → Type 0
Differs jti none = Unit
Differs jti (some new) = (new == jti) ≡ false

-- crypto.randomUUID() does not give the identifier again.
abbrev pub Avoids : String → List Event → Type 0
Avoids jti es = All (λ e. Differs jti (minted_jti e)) es

has_jti-IsBlind : (jti : String) → IsBlind (has_jti jti)
has_jti-IsBlind jti = record { marked = λ t w r. refl; linked = λ p r. refl; counted = λ n r. refl }

module _ (jti : String) (q : RefreshRow → Bool) (blind : IsBlind q)
    (narrow : (r : RefreshRow) → has_jti jti r ≡ false → q r ≡ false) where
  provision_lem :
      (ctx : Context) (args : ProvisionArgs)
      → Buries q (provision_user_with_auto_provision_gate ctx args)
  unfolding provision_user_with_auto_provision_gate provision_user create_user
  provision_lem ctx args db d = ground (arith, d)

  Dead-step :
      (e : Event) (db : AuthDb) → Differs jti (minted_jti e) → Dead q db → Dead q (step e db)
  unfolding step purge_tokens bump_token_epoch_all_users revoke_service_token
  Dead-step (grant ctx body) db new d =
      Buries-refresh_token_grant q blind ctx body (λ opts. narrow (fresh_row ctx opts) new) db d
  Dead-step (recheck ctx claims row) db new d = Buries-recheck q blind ctx claims row db d
  Dead-step (resume ctx claims row o) db new d =
      Buries-rotate_or_reuse q blind ctx claims row o (λ opts. narrow (fresh_row ctx opts) new) db d
  Dead-step (claim ctx claims) db new d = Buries-claim_rotation q blind ctx claims db d
  Dead-step (finish ctx claims row user) db new d =
      Buries-finish_rotation q blind ctx claims row user
        (narrow (fresh_row ctx (successor_of ctx row user)) new) db d
  Dead-step (provision ctx args) db new d = provision_lem ctx args db d
  Dead-step (mint ctx opts) db new d =
      Buries-mint_token_pair q blind ctx opts (narrow (fresh_row ctx opts) new) db d
  Dead-step (log_out ctx auth) db new d = Buries-handle_logout q blind ctx auth db d
  Dead-step (log_out_all ctx auth) db new d = Buries-handle_logout_all q blind ctx auth db d
  Dead-step (revoke ctx auth body) db new d = Buries-handle_revoke q blind ctx auth body db d
  Dead-step (issue ctx opts) db new d =
      Buries-issue_service_token q blind ctx opts (narrow (service_row ctx opts) new) db d
  Dead-step (revoke_service ctx id) db new d = Dead-revoke_service_token q blind ctx id db d
  Dead-step (bump_one wall user) db new d =
      Buries-of_Quiet q (bump_token_epoch wall user) (bump_token_epoch-Quiet wall user) db d
  Dead-step (bump_all wall) db new d = d
  Dead-step (hear user epoch) db new d = d
  Dead-step (purge now days) db new d =
      let dead : RefreshRow → Type 0 = λ r. q r ≡ true → is_live r ≡ false in
      let cutoff = now - refresh_expired_retention_days * seconds_per_day in
      All-delete_limit dead batch_size (is_long_expired cutoff) _
        (All-delete_limit dead batch_size _ db.tokens d)

  pub Dead-run : (es : List Event) (db : AuthDb) → Avoids jti es → Dead q db → Dead q (run es db)
  Dead-run [] db new d = d
  Dead-run (e ∷ es) db new d = Dead-run es (step e db) new.1 (Dead-step e db new.0 d)

module _ (q : RefreshRow → Bool) where
  All-mark :
      (now : ℕ) (reason : RevokedReason) (xs : List RefreshRow)
      → All
          (λ r. q r ≡ true → is_live r ≡ false)
          (update_where (λ r. q r && is_live r) (mark now reason) xs)
  All-mark now reason [] = tt
  All-mark now reason (x ∷ xs) = (row (is_live x) refl, All-mark now reason xs)
    where
      row :
          (b : Bool)
          → is_live x ≡ b
          → q (if q x && is_live x then mark now reason x else x) ≡ true
          → is_live (if q x && is_live x then mark now reason x else x) ≡ false
      row true live e = ground (arith, live, e)
      row false dead e = ground (arith, dead, e)

  -- What an update that revokes every row of `q` leaves.
  pub Dead-mark :
      (now : ℕ) (reason : RevokedReason) (db : AuthDb)
      → Dead q (set_tokens (λ r. q r && is_live r) (mark now reason) db)
  Dead-mark now reason db = All-mark now reason db.tokens

  pub any_unused-Dead : (db : AuthDb) → Dead q db → any (λ r. q r && is_live r) db.tokens ≡ false
  any_unused-Dead db d = elim (Bool-cases (any (λ r. q r && is_live r) db.tokens)) [
    | inr e ↦ e
    | inl e ↦
        let (r, m, hit) = any_witness (λ r. q r && is_live r) db.tokens e in
        absurd (ground (arith, hit, All-Mem (λ r. q r ≡ true → is_live r ≡ false) d m))
  ]

claimed :
    (ctx : Context) (claims : Claims) (db won : AuthDb)
    → claim_rotation ctx claims db ≡ (done tt, won)
    → Dead (has_jti claims.jti) won
unfolding claim_rotation
claimed ctx claims db won first = elim (Bool-cases (any (is_unused claims.jti) db.tokens)) [
  | inl e ↦
      let same : won ≡ set_tokens (is_unused claims.jti) (mark ctx.now rotated) db =
        sym (ap (λ r. r.1) first) ∙ rw (e, claim_rotation) refl in
      subst (Dead (has_jti claims.jti)) (sym same)
        (Dead-mark (has_jti claims.jti) ctx.now rotated db)
  | inr e ↦ absurd (lost e first)
]
  where
    lost :
        any (is_unused claims.jti) db.tokens ≡ false
        → ¬ (claim_rotation ctx claims db ≡ (done tt, won))
    lost e p = cc (ap (λ r. r.0) (rw (e, claim_rotation) at p))

-- A refresh token is rotated at most once: after a rotation has claimed its row, and then whatever
-- the handlers and the sweeper do, in any interleaving, no other rotation of the same token goes
-- through, but answers that it has lost the race. (While no identifier is handed out twice.)
pub rotates_once :
    (ctx : Context) (claims : Claims) (db won : AuthDb) (es : List Event) (later : Context)
    (again : Claims)
    → claim_rotation ctx claims db ≡ (done tt, won)
    → Avoids claims.jti es
    → again.jti ≡ claims.jti
    → claim_rotation later again (run es won)
      ≡ (reply (oauth_error 400 "invalid_grant" "Rotation race; please retry" false), run es won)
unfolding claim_rotation
rotates_once ctx claims db won es later again first new same =
    let dead =
      Dead-run claims.jti (has_jti claims.jti) (has_jti-IsBlind claims.jti) (λ r e. e) es won new
        (claimed ctx claims db won first) in
    let none_left : any (is_unused again.jti) (run es won).tokens ≡ false =
      ap (λ jti. any (is_unused jti) (run es won).tokens) same
      ∙ any_unused-Dead (has_jti claims.jti) (run es won) dead in
    rw (none_left, claim_rotation) refl

-- A service token that has been revoked is never accepted again: after revokeServiceToken, and then
-- whatever the handlers and the sweeper do, verifyServiceTokenJti answers false for it. (While no
-- identifier is handed out twice.)
pub service_stays_revoked :
    (ctx : Context) (jti : String) (db : AuthDb) (es : List Event)
    → Avoids jti es
    → verify_service_token_jti ctx.sql_lower (run es (revoke_service_token ctx jti db).1) jti
      ≡ false
unfolding verify_service_token_jti revoke_service_token
service_stays_revoked ctx jti db es new =
    let q = is_service_jti ctx.sql_lower jti in
    let after = (revoke_service_token ctx jti db).1 in
    let dead =
      Dead-run jti q
        (record { marked = λ t w r. refl; linked = λ p r. refl; counted = λ n r. refl })
        (λ r e. ground (arith, e)) es after new (Dead-mark q ctx.now RevokedReason.admin db) in
    elim (Option-cases (find_row q (run es after).tokens)) [
      | inl e ↦ rw (e, verify_service_token_jti) refl
      | inr (r, e) ↦
          let (m, hit) = find_row-Mem q (run es after).tokens e in
          rw (e, verify_service_token_jti)
            (All-Mem (λ r. q r ≡ true → is_live r ≡ false) dead m hit)
    ]
