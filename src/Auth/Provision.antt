-- ===== src/Auth/Provision.antt =====
-- provisionUser and provisionUserWithAutoProvisionGate of src/auth/oauth-finalize.ts: the account of
-- a person who signs in.
pub mod Bootstrap
use mcp_coordinator.Prelude.{
  ℕ, String, Bool, true, false, ◌&&◌, not, Option, none, some, List, ◌==◌, any, equals, eq_ℕ,
  if◌then◌else◌,
}
use mcp_coordinator.Table.{find_row, insert_row, update_where, count_where}
use mcp_coordinator.Auth.State.{
  AuthDb, Context, User, UserOrg, Column, idp_access_token, idp_refresh_token,
}
use mcp_coordinator.Auth.Steps.{Step, Answer, done, reply, thrown}
use mcp_coordinator.Auth.Epoch.{has_id}
use mcp_coordinator.Auth.Mint.{encrypt_nullable, given_or}

-- What the provider tells of the person, the organisation that lets them in, and the tokens.
pub record ProvisionArgs : Type 0 where
  pub idp_user_id : String
  pub email : String
  pub name : Option String
  pub org_id : String
  pub provider_name : String
  pub access_token : String
  pub idp_refresh_token : Option String

pub record ProvisionResult : Type 0 where
  pub user_id : String
  pub primary_org_id : String
  pub role : Option String
  pub is_new : Bool
  pub bootstrap_admin : Bool

abbrev pub is_identity : ProvisionArgs → User → Bool
is_identity args u = u.idp_provider == args.provider_name && u.idp_user_id == args.idp_user_id

abbrev pub is_admin : User → Bool
is_admin u = equals u.role "admin"

abbrev pub wrapped : Context → ProvisionArgs → Column → String → Option String → Option String
wrapped ctx args column user value = encrypt_nullable ctx.encryption args.org_id column user value

-- A returning user.
abbrev pub welcome : Context → ProvisionArgs → User → User
welcome ctx args u = record u {
  idp_access_token = wrapped ctx args idp_access_token u.id (some args.access_token);
  idp_refresh_token = wrapped ctx args idp_refresh_token u.id args.idp_refresh_token;
  last_login_at = some ctx.now;
}

abbrev pub new_user : Context → ProvisionArgs → User
new_user ctx args = record {
  id = ctx.new_user;
  primary_org_id = args.org_id;
  email = args.email;
  name = args.name;
  idp_provider = args.provider_name;
  idp_user_id = args.idp_user_id;
  idp_access_token = wrapped ctx args idp_access_token ctx.new_user (some args.access_token);
  idp_refresh_token = wrapped ctx args idp_refresh_token ctx.new_user args.idp_refresh_token;
  role = some "member";
  token_epoch = 0;
  last_login_at = some ctx.now;
}

-- WHERE id = ? AND NOT EXISTS (SELECT 1 FROM users WHERE role = 'admin' AND id != ?)
unfoldable pub is_first_admin : String → List User → Bool
is_first_admin id users = not (any (λ u. is_admin u && not (has_id id u)) users)

abbrev pub promote : User → User
promote u = record u { role = some "admin" }

unfoldable pub create_user : Context → ProvisionArgs → AuthDb → ProvisionResult × AuthDb
unfolding is_first_admin
create_user ctx args db =
    let users = insert_row (new_user ctx args) db.users in
    let promotable : User → Bool =
      λ u. has_id ctx.new_user u && is_first_admin ctx.new_user users in
    let bootstrap = eq_ℕ (count_where promotable users) 1 in
    let role = if bootstrap then "admin" else "member" in
    let joined : UserOrg = record { user_id = ctx.new_user; org_id = args.org_id; role = role } in
    (
      record {
        user_id = ctx.new_user;
        primary_org_id = args.org_id;
        role = some role;
        is_new = true;
        bootstrap_admin = bootstrap;
      },
      record db {
        users = update_where promotable promote users;
        user_orgs = insert_row joined db.user_orgs;
      },
    )

abbrev pub provision_found :
    Context → ProvisionArgs → Option User → AuthDb → ProvisionResult × AuthDb
provision_found ctx args none db = create_user ctx args db
provision_found ctx args (some u) db = (
  record {
    user_id = u.id;
    primary_org_id = u.primary_org_id;
    role = u.role;
    is_new = false;
    bootstrap_admin = false;
  },
  record db { users = update_where (has_id u.id) (welcome ctx args) db.users },
)

unfoldable pub provision_user : Context → ProvisionArgs → AuthDb → ProvisionResult × AuthDb
provision_user ctx args db = provision_found ctx args (find_row (is_identity args) db.users) db

-- String(getOrgSetting(db, null, "auto_provision", "true")).toLowerCase()
abbrev pub auto_provision : Context → String
auto_provision ctx = ctx.lower (given_or (ctx.env_var "COORDINATOR_AUTO_PROVISION") "true")

-- ProvisioningDeniedError is `thrown`; it rolls back a transaction that has written nothing.
unfoldable pub provision_user_with_auto_provision_gate :
    Context → ProvisionArgs → Step ProvisionResult
unfolding provision_user
provision_user_with_auto_provision_gate ctx args db =
    if auto_provision ctx == "false" && not (any (is_identity args) db.users)
    then (thrown, db)
    else let (result, db') = provision_user ctx args db in (done result, db')
