-- ===== src/Auth/Rotation/Families.antt =====
-- What a reuse does to a family of tokens: src/auth/refresh-rotation.ts.
use mcp_coordinator.Prelude.{
  ℕ, ◌+◌, ◌-◌, ◌≤◌, ◌⊎◌, ◌≢◌, leb, arith, String, ◌≡◌, refl, sym, ap, ◌∙◌, inl, inr, Bool, true,
  false, ◌&&◌, Option, none, some, [], ◌∷◌, ◌==◌, eq_refl, any, any_of_Mem, head, Mem-append_right,
  Bool-cases,
}
use mcp_coordinator.Table.{update_where, insert_row, Mem-update_where}
use mcp_coordinator.Auth.State.{
  AuthDb, Claims, Context, RefreshRow, User, RevokedReason, same_reason, rotated, reuse_detected,
  idle_expired, admin, logout, logout_all, has_jti, is_live, hard_reuse, chain_revoked,
}
use mcp_coordinator.Auth.Steps.{Answer, done, reply, oauth_error, pure}
use mcp_coordinator.Auth.Mint.{
  MintedPair, mint_token_pair, insert_token, violates, fresh_row, minted, MintOptions,
}
use mcp_coordinator.Auth.Rotation.Reuse.{
  handle_reuse_branch, revoke_chain, revoke_family_for_reuse, in_family, is_hard_reuse,
  within_grace, successor_row,
}
use mcp_coordinator.Auth.Recheck.{RecheckOutcome}
use mcp_coordinator.Auth.Rotation.{
  rotate_or_reuse, finish_rotation, set_parent, successor_of, finish_with, told, has_other_child,
  adopt,
}
use mcp_coordinator.Auth.Outcomes.{done_inv}
use mcp_coordinator.Auth.Spent.{Dead}
use mcp_coordinator.Auth.Traffic.{Dead-mark}

same_reason_rotated : (r : RevokedReason) → same_reason r rotated ≡ true → r ≡ rotated
same_reason_rotated rotated e = refl
same_reason_rotated reuse_detected e = cc e
same_reason_rotated idle_expired e = cc e
same_reason_rotated admin e = cc e
same_reason_rotated logout e = cc e
same_reason_rotated logout_all e = cc e

hard_reason :
    (o : Option RevokedReason)
    → o ≢ some rotated
    → elim o [ none ↦ false | some reason ↦ same_reason reason rotated ] ≡ false
hard_reason none n = refl
hard_reason (some r) n = elim (Bool-cases (same_reason r rotated)) [
  | inl e ↦ absurd (n (ap some (same_reason_rotated r e)))
  | inr e ↦ e
]

late_or_other :
    (now t : ℕ) (row : RefreshRow)
    → row.revoked_at ≡ some t
    → (t + 10 ≤ now) ⊎ (row.revoked_reason ≢ some rotated)
    → is_hard_reuse now row ≡ true
late_or_other now t row used (inl late) =
    let beyond : leb 10 (now - t) ≡ true = ground (arith, late) in rw (used, beyond) refl
late_or_other now t row used (inr other) = rw (hard_reason row.revoked_reason other) (ground arith)

-- Where a refresh reaches its last step with a row that was revoked ten seconds ago or more, or by
-- anything but a rotation, the whole family is ended: every token of the family is revoked, no token
-- is given out, and the rest of the tables is as before but for the audit.
pub hard_reuse_ends_family :
    (ctx : Context) (claims : Claims) (row : RefreshRow) (outcome : RecheckOutcome) (db : AuthDb)
    (t : ℕ)
    → row.revoked_at ≡ some t
    → (t + 10 ≤ ctx.now) ⊎ (row.revoked_reason ≢ some rotated)
    → let (answer, after) = rotate_or_reuse ctx claims row outcome db in
      (answer ≡ reply (oauth_error 401 "invalid_grant" "Refresh token chain revoked" false))
      × Dead (in_family row.family_id) after
      × (after ≡ record db {
        tokens = after.tokens;
        audits = insert_row (chain_revoked claims.jti row.family_id hard_reuse) db.audits;
      })
unfolding rotate_or_reuse handle_reuse_branch revoke_chain revoke_family_for_reuse
hard_reuse_ends_family ctx claims row outcome db t used late =
    let dead : is_live row ≡ false = rw used refl in
    rw (dead, late_or_other ctx.now t row used late, rotate_or_reuse, handle_reuse_branch)
      (refl, Dead-mark (in_family row.family_id) ctx.now reuse_detected db, refl)

-- The same within the grace window, while the rotation that used the token up has not yet inserted
-- the successor: the family is ended.
pub orphan_ends_family :
    (ctx : Context) (claims : Claims) (row : RefreshRow) (recheck_failed : Bool) (db : AuthDb)
    → successor_row claims.jti db ≡ none
    → Dead (in_family row.family_id) (handle_reuse_branch ctx claims row recheck_failed db).1
unfolding handle_reuse_branch revoke_chain revoke_family_for_reuse within_grace
orphan_ends_family ctx claims row recheck_failed db orphan =
    let ended = Dead-mark (in_family row.family_id) ctx.now reuse_detected db in
    elim (Bool-cases (is_hard_reuse ctx.now row)) [
      | inl e ↦ rw (e, handle_reuse_branch) ended
      | inr e ↦ rw (e, orphan, handle_reuse_branch) ended
    ]

module _ (ctx : Context) (claims : Claims) (row : RefreshRow) (user : Option User)
    (db : AuthDb) where
  abbrev opts : MintOptions
  opts = successor_of ctx row user

  abbrev added : RefreshRow
  added = fresh_row ctx opts

  insert_inv :
      {after : AuthDb}
      → insert_token added db ≡ (done tt, after)
      → after.tokens ≡ insert_row added db.tokens
  unfolding insert_token
  insert_inv e = elim (Bool-cases (violates added db)) [
    | inl v ↦ absurd (cc (ap (λ r. r.0) (rw (v, insert_token) at e)))
    | inr v ↦ ap (λ (r : Answer (Unit {0}) × AuthDb). r.1.tokens) (sym (rw (v, insert_token) at e))
  ]

  adopt_inv :
      (child : String) (mid after : AuthDb)
      → set_parent claims.jti child mid ≡ (done tt, after)
      → after.tokens ≡ update_where (has_jti child) (adopt claims.jti) mid.tokens
  unfolding set_parent
  adopt_inv child mid after e = elim (Bool-cases (has_other_child claims.jti child mid)) [
    | inl v ↦ absurd (cc (ap (λ r. r.0) (rw (v, set_parent) at e)))
    | inr v ↦ ap (λ (r : Answer (Unit {0}) × AuthDb). r.1.tokens) (sym (rw (v, set_parent) at e))
  ]

  -- The rows after a completed rotation.
  pub rows-finish_rotation :
      {pair : MintedPair} {after : AuthDb}
      → finish_rotation ctx claims row user db ≡ (done pair, after)
      → after.tokens
        ≡ update_where (has_jti ctx.new_jti) (adopt claims.jti) (insert_row added db.tokens)
  unfolding finish_rotation mint_token_pair
  rows-finish_rotation e =
      let (p, mid, made, rest) = done_inv (mint_token_pair ctx opts) (finish_with claims) db e in
      let (u, grown, inserted, kept) =
        done_inv (insert_token added) (λ n. pure (minted ctx opts)) db made in
      let (v, linked, adopted, said) =
        done_inv (set_parent claims.jti p.refresh_jti) (λ n. told claims p) mid rest in
      let same_pair : p ≡ minted ctx opts = cc (ap (λ r. r.0) kept) in
      let same_rows : mid.tokens ≡ insert_row added db.tokens =
        ap (λ (r : Answer MintedPair × AuthDb). r.1.tokens) (sym kept) ∙ insert_inv inserted in
      ap (λ (r : Answer MintedPair × AuthDb). r.1.tokens) (sym said)
      ∙ adopt_inv p.refresh_jti mid linked adopted
      ∙ ap (λ (c : MintedPair). update_where (has_jti c.refresh_jti) (adopt claims.jti) mid.tokens)
          same_pair
      ∙ ap (update_where (has_jti ctx.new_jti) (adopt claims.jti)) same_rows

  -- The successor is inserted live all the same: when a rotation that was interrupted at the minting
  -- is taken up again and completes, its family has a live token, whatever was revoked in between.
  pub late_successor_lives :
      (pair : MintedPair) (after : AuthDb) (family : String)
      → finish_rotation ctx claims row user db ≡ (done pair, after)
      → row.family_id ≡ some family
      → (family == "") ≡ false
      → any (λ r. in_family (some family) r && is_live r) after.tokens ≡ true
  late_successor_lives pair after family e named nonempty =
      let there =
        Mem-update_where (has_jti ctx.new_jti) (adopt claims.jti)
          (Mem-append_right db.tokens {ys = added ∷ []} (head refl)) in
      ap (any (λ r. in_family (some family) r && is_live r)) (rows-finish_rotation e)
      ∙ any_of_Mem (λ r. in_family (some family) r && is_live r) there
          (rw (eq_refl ctx.new_jti, nonempty, named) (rw (eq_refl family) refl))
