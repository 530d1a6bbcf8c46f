-- ===== src/Auth/Provision/Bootstrap.antt =====
-- Who becomes an administrator at sign-in: provisionUser of src/auth/oauth-finalize.ts.
use mcp_coordinator.Prelude.{
  ◌≡◌, refl, String, Bool-cases, inl, inr, Bool, true, false, not, ◌&&◌, none, List, [], ◌∷◌,
  eq_refl, some, eq_ℕ, if◌then◌else◌, any, arith,
}
use mcp_coordinator.Table.{find_row, insert_row, update_where, count_where}
use mcp_coordinator.Auth.State.{AuthDb, Context, User}
use mcp_coordinator.Auth.Epoch.{has_id}
use mcp_coordinator.Auth.Provision.{
  ProvisionArgs, is_identity, is_admin, new_user, is_first_admin, promote, create_user,
  provision_user,
}

module _ (ctx : Context) (args : ProvisionArgs) where
  others_admin :
      (xs : List User)
      → any (has_id ctx.new_user) xs ≡ false
      → any (λ u. is_admin u && not (has_id ctx.new_user u)) (insert_row (new_user ctx args) xs)
        ≡ any is_admin xs
  others_admin [] h = ground (arith, eq_refl ctx.new_user)
  others_admin (x ∷ xs) h = ground (arith, others_admin xs (ground arith))

  -- The UPDATE reaches the new row or none.
  promoted :
      (first : Bool) (xs : List User)
      → any (has_id ctx.new_user) xs ≡ false
      → update_where
          (λ u. has_id ctx.new_user u && first)
          promote
          (insert_row (new_user ctx args) xs)
        ≡ insert_row
            (record (new_user ctx args) { role = some (if first then "admin" else "member") })
            xs
  promoted true [] h = rw (eq_refl ctx.new_user) refl
  promoted false [] h = rw (eq_refl ctx.new_user) refl
  promoted first (x ∷ xs) h = ground (arith, promoted first xs (ground arith))

  changes :
      (first : Bool) (xs : List User)
      → any (has_id ctx.new_user) xs ≡ false
      → eq_ℕ
          (count_where (λ u. has_id ctx.new_user u && first) (insert_row (new_user ctx args) xs))
          1
        ≡ first
  changes true [] h = rw (eq_refl ctx.new_user) refl
  changes false [] h = rw (eq_refl ctx.new_user) refl
  changes first (x ∷ xs) h = ground (arith, changes first xs (ground arith))

  -- A person who signs in for the first time becomes administrator exactly when there was none, and
  -- is a member otherwise: so it is told, the row is added with that role, the organisation is joined
  -- in it, and no other user's row changes. (While the new user's random identifier is unused.)
  pub bootstrap_exact :
      (db : AuthDb)
      → find_row (is_identity args) db.users ≡ none
      → any (has_id ctx.new_user) db.users ≡ false
      → let role : String = if any is_admin db.users then "member" else "admin" in
        let (result, after) = provision_user ctx args db in
        (result.bootstrap_admin ≡ not (any is_admin db.users))
        × (result.role ≡ some role)
        × (after ≡ record db {
          users = insert_row (record (new_user ctx args) { role = some role }) db.users;
          user_orgs =
              insert_row
                record { user_id = ctx.new_user; org_id = args.org_id; role = role }
                db.user_orgs;
        })
  unfolding provision_user create_user is_first_admin
  bootstrap_exact db unknown unused = elim (Bool-cases (any is_admin db.users)) [
    | inl e ↦
        rw
          (
            unknown,
            provision_user,
            others_admin db.users unused,
            e,
            changes false db.users unused,
            promoted false db.users unused,
          )
          (refl, refl, refl)
    | inr e ↦
        rw
          (
            unknown,
            provision_user,
            others_admin db.users unused,
            e,
            changes true db.users unused,
            promoted true db.users unused,
          )
          (refl, refl, refl)
  ]
