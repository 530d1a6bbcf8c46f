-- ===== src/Auth/Epoch.antt =====
-- src/auth/token-epoch.ts: the epoch of a user, before which every token is void, and the floor
-- that the other instances' bumps have told this one. Publishing on the bus is outside the model:
-- a message arrives as note_epoch_bump.
use mcp_coordinator.Prelude.{
  ℕ, ◌+◌, ◌≤◌, max, ◌<◌, String, ◌≡◌, ◌↔◌, refl, ap, ◌∙◌, inl, inr, Bool, true, false, Option, none,
  some, List, [], ◌∷◌, ◌==◌, eq_iff, ltb, ltb→lt, ltb→ge, if◌then◌else◌, arith, Bool-cases,
}
use mcp_coordinator.Table.{find_row, update_where, find_row-update_where, find_row-Mem}
use mcp_coordinator.Auth.State.{AuthDb, Claims, Floors, User, invalid_token, token_epoch_exceeded}
use mcp_coordinator.Auth.Steps.{Step, done, thrown, audit, write_oauth_error, ◌>>◌}

abbrev pub has_id : String → User → Bool
has_id id u = u.id == id

abbrev epoch_of : Option User → ℕ
epoch_of none = 0
epoch_of (some u) = u.token_epoch

unfoldable pub read_token_epoch : String → AuthDb → ℕ
read_token_epoch user db = epoch_of (find_row (has_id user) db.users)

-- _floorByUser.get(userId) ?? 0
unfoldable pub floor_of : String → List (String × ℕ) → ℕ
floor_of user [] = 0
floor_of user ((key, epoch) ∷ rest) =
    let older = floor_of user rest in if key == user then epoch else older

unfoldable pub note_epoch_bump : String → ℕ → Floors → Floors
unfolding floor_of
note_epoch_bump user epoch floors =
    if user == "*"
    then (if ltb floors.everyone epoch then record floors { everyone = epoch } else floors)
    else if ltb (floor_of user floors.by_user) epoch
    then record floors { by_user = (user, epoch) ∷ floors.by_user }
    else floors

unfoldable pub get_epoch_floor : String → Floors → ℕ
unfolding floor_of
get_epoch_floor user floors = max floors.everyone (floor_of user floors.by_user)

abbrev pub bump : ℕ → User → User
bump wall u = record u { token_epoch = max wall (u.token_epoch + 1) }

-- UPDATE … RETURNING, and the error for no row: `wall` is strftime('%s', 'now').
abbrev bump_found : ℕ → String → Option User → Step ℕ
bump_found wall user none db = (thrown, db)
bump_found wall user (some u) db = (
  done (max wall (u.token_epoch + 1)),
  record db { users = update_where (has_id user) (bump wall) db.users },
)

unfoldable pub bump_token_epoch : ℕ → String → Step ℕ
bump_token_epoch wall user db = bump_found wall user (find_row (has_id user) db.users) db

unfoldable pub bump_token_epoch_all_users : ℕ → AuthDb → AuthDb
bump_token_epoch_all_users wall db = record db {
  users = update_where (λ u. true) (bump wall) db.users;
}

-- Step 4 of the rotation.
unfoldable pub check_token_epoch : Claims → Step (Unit {0})
unfolding read_token_epoch get_epoch_floor
check_token_epoch claims db =
    let epoch = max (read_token_epoch claims.sub db) (get_epoch_floor claims.sub db.floors) in
    elim (ltb claims.iat epoch) [
      | true ↦
          (audit (invalid_token token_epoch_exceeded)
              >> write_oauth_error "invalid_grant" "Session invalidated by admin" 400)
            db
      | false ↦ (done tt, db)
    ]

-- The epoch check lets a token of the user pass.
abbrev pub Passes : Claims → AuthDb → Type 0
Passes claims db = check_token_epoch claims db ≡ (done tt, db)

passes_iff :
    (claims : Claims) (db : AuthDb)
    → Passes claims db ↔ (
        (read_token_epoch claims.sub db ≤ claims.iat)
        × (get_epoch_floor claims.sub db.floors ≤ claims.iat))
unfolding check_token_epoch
passes_iff claims db =
    let e = read_token_epoch claims.sub db in
    let f = get_epoch_floor claims.sub db.floors in
    elim (Bool-cases (ltb claims.iat (max e f))) [
      | inl late ↦
          let below : claims.iat < max e f = ltb→lt claims.iat (max e f) late in
          (λ p. absurd (refused late p), λ (a, b). absurd (omega (arith, below, a, b)))
      | inr fine ↦
          let above : max e f ≤ claims.iat = ltb→ge claims.iat (max e f) fine in
          (
            λ p. (omega (arith, above), omega (arith, above)),
            λ p. rw (fine, check_token_epoch) refl,
          )
    ]
  where
    refused :
        ltb claims.iat (max (read_token_epoch claims.sub db) (get_epoch_floor claims.sub db.floors))
          ≡ true
        → ¬ Passes claims db
    refused late p = cc (ap (λ r. r.0) (rw (late, check_token_epoch) at p))

module _ (wall : ℕ) (claims : Claims) (db : AuthDb) (u : User)
    (found : find_row (has_id claims.sub) db.users ≡ some u) where
  abbrev after : AuthDb
  after = (bump_token_epoch wall claims.sub db).1

  bumped : after ≡ record db { users = update_where (has_id claims.sub) (bump wall) db.users }
  unfolding bump_token_epoch
  bumped = ap (λ o. (bump_found wall claims.sub o db).1) found

  raised : read_token_epoch claims.sub after ≡ max wall (u.token_epoch + 1)
  unfolding read_token_epoch
  raised =
      let (m, hit) = find_row-Mem (has_id claims.sub) db.users found in
      ap (read_token_epoch claims.sub) bumped
      ∙ ap epoch_of (
          find_row-update_where (has_id claims.sub) (has_id claims.sub) (bump wall) db.users
            (λ x. refl))
      ∙ rw (found, hit) refl

  same_floors : after.floors ≡ db.floors
  same_floors = ap (λ (d : AuthDb). d.floors) bumped

  -- Raising a user's epoch voids exactly the tokens that were issued before the second of the raise,
  -- or at or before the old epoch: any other token of the user passes the check of the epoch
  -- afterwards, if the floor lets it.
  pub bump_voids : Passes claims after ↔ (
      (wall ≤ claims.iat)
      × (u.token_epoch < claims.iat)
      × (get_epoch_floor claims.sub db.floors ≤ claims.iat))
  bump_voids =
      let (to, from) = passes_iff claims after in
      (
        λ p.
            let (a, b) = to p in
            (
              omega (arith, raised, a),
              omega (arith, raised, a),
              rw (ap (get_epoch_floor claims.sub) same_floors) at b,
            ),
        λ (a, b, c).
            from (omega (arith, raised, a, b), rw (ap (get_epoch_floor claims.sub) same_floors) c),
      )

-- A message of another instance raises the floor to its epoch, for its user or for everyone under
-- "*", and lowers no user's floor.
pub floor_rises :
    (who user : String) (epoch : ℕ) (floors : Floors)
    → let after = note_epoch_bump who epoch floors in
      (get_epoch_floor user floors ≤ get_epoch_floor user after)
      × (who ≡ user → epoch ≤ get_epoch_floor user after)
      × (who ≡ "*" → epoch ≤ get_epoch_floor user after)
unfolding note_epoch_bump get_epoch_floor floor_of
floor_rises who user epoch floors = (
  ground (arith, eq_iff who user, eq_iff who "*"),
  λ e. ground (arith, eq_iff who user, eq_iff who "*"),
  λ e. ground (arith, eq_iff who user, eq_iff who "*"),
)
