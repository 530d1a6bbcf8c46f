-- ===== src/Examples/Sessions.antt =====
-- The theorems on sessions, applied to one user, one token and one request.
use Prim.Native.String.{◌++◌}
use mcp_coordinator.Prelude.{
  arith, ◌≤◌, ◌<◌, String, ◌≡◌, ◌≢◌, ◌↔◌, refl, ap, inl, inr, true, false, not, ◌&&◌, none, some,
  List, [], ◌∷◌, ◌==◌, any, Bool-cases, eq_iff, if◌then◌else◌,
}
use mcp_coordinator.Table.{insert_row}
use mcp_coordinator.Auth.State.{
  AuthDb, Claims, Context, RefreshRow, User, plain, rotated, mark, is_live, chain_revoked,
  hard_reuse,
}
use mcp_coordinator.Auth.Steps.{done, reply, oauth_error, token_pair}
use mcp_coordinator.Auth.Epoch.{
  check_token_epoch, bump_token_epoch, Passes, get_epoch_floor, bump_voids,
}
use mcp_coordinator.Auth.Mint.{
  MintedPair, minted, decrypt_nullable, mint_token_pair, insert_token, mint_access_jwt,
  mint_refresh_jwt,
}
use mcp_coordinator.Auth.Membership.{idle_timeout_setting, resolve_org_from_memberships}
use mcp_coordinator.Auth.Membership.Case.{mixed_case_denied}
use mcp_coordinator.Auth.Recheck.{refresh_idp_membership_and_allowlist}
use mcp_coordinator.Auth.Recheck.{RecheckOutcome}
use mcp_coordinator.Auth.Provision.{new_user}
use mcp_coordinator.Auth.Rotation.{
  rotate_or_reuse, claim_rotation, finish_rotation, refresh_token_grant, successor_of,
}
use mcp_coordinator.Auth.Rotation.Guards.{
  Form, extract_refresh_token, verify_and_validate_claims, check_not_service_account,
  select_refresh_row, check_idle_timeout,
}
use mcp_coordinator.Auth.Rotation.Reuse.{in_family}
use mcp_coordinator.Auth.Rotation.Families.{hard_reuse_ends_family, late_successor_lives}
use mcp_coordinator.Auth.Rotation.Issued.{Deserved, issued_only_if}
use mcp_coordinator.Auth.Spent.{Dead}
use mcp_coordinator.Auth.Traffic.{
  Event, grant, purge, run, Avoids, rotates_once, service_stays_revoked,
}
use mcp_coordinator.Auth.ServiceTokens.{revoke_service_token, verify_service_token_jti}
use mcp_coordinator.Auth.Provision.{ProvisionArgs, provision_user, is_admin}
use mcp_coordinator.Auth.Provision.Bootstrap.{bootstrap_exact}

-- The claims of the token "old".
abbrev old_claims : Claims
old_claims = record {
  sub = "ann";
  active_org_id = "acme";
  family_id = "f";
  jti = "j1";
  iat = 100;
  service_account = false;
  typ = some "refresh";
}

abbrev later : Context
later = record {
  now = 200;
  wall = 200;
  public_url = "https://c/";
  keys = record { current = "k"; previous = none };
  jwt_verify = λ key issuer tolerance token. if token == "old" then some old_claims else none;
  sign = λ key p. p.typ ++ "-" ++ p.jti;
  decode_jti = λ token. none;
  utf16_length = λ s. 20;
  sha256 = λ s. s;
  lower = λ s. s;
  sql_lower = λ s. s;
  sorted_before = λ s t. false;
  env_var = λ s. none;
  has_idle_column = false;
  new_jti = "j2";
  new_access_jti = "a2";
  new_family = "f2";
  new_user = "bob";
  ip = some "1.2.3.4";
  user_agent = none;
  providers = λ s. none;
  encryption = record { encrypt = λ o c u s. s; decrypt = λ o c u s. plain s };
  held = λ s. false;
  shared = λ s. none;
}

abbrev live_row : RefreshRow
live_row = record {
  jti = "j1";
  user_id = "ann";
  org_id = "acme";
  family_id = some "f";
  parent_jti = none;
  revoked_at = none;
  revoked_reason = none;
  consumer_fingerprint = some "1.2.3.4|";
  expires_at = 9000;
  last_used_at = some 100;
  replay_count = 0;
}

abbrev ann : User
ann = record {
  id = "ann";
  primary_org_id = "acme";
  email = "ann@acme";
  name = none;
  idp_provider = "github";
  idp_user_id = "7";
  idp_access_token = none;
  idp_refresh_token = none;
  role = some "member";
  token_epoch = 50;
  last_login_at = none;
}

abbrev fresh_db : AuthDb
fresh_db = record {
  tokens = live_row ∷ [];
  users = ann ∷ [];
  user_orgs = [];
  orgs =
      record {
        id = "acme";
        name = "Acme";
        allowlist_github_org = none;
        session_idle_timeout = none;
      }
      ∷ [];
  audits = [];
  cache = [];
  floors = record { by_user = []; everyone = 0 };
  buckets = [];
}

abbrev form : Form
form = ("refresh_token", "old") ∷ []

abbrev claimed_db : AuthDb
claimed_db = record fresh_db { tokens = mark 200 rotated live_row ∷ [] }

first_claim : claim_rotation later old_claims fresh_db ≡ (done tt, claimed_db)
unfolding claim_rotation
first_claim = refl

-- The token again, and the sweeper.
abbrev traffic : List Event
traffic = grant later (some form) ∷ purge 900 180 ∷ []

traffic-Avoids : Avoids "j1" traffic
traffic-Avoids = (refl, (tt, tt))

rotates_once_example : claim_rotation later old_claims (run traffic claimed_db) ≡ (
  reply (oauth_error 400 "invalid_grant" "Rotation race; please retry" false),
  run traffic claimed_db,
)
rotates_once_example =
    rotates_once later old_claims fresh_db claimed_db traffic later old_claims first_claim
      traffic-Avoids refl

service_stays_revoked_example :
    verify_service_token_jti later.sql_lower
      (run traffic (revoke_service_token later "j1" fresh_db).1)
      "j1"
    ≡ false
service_stays_revoked_example = service_stays_revoked later "j1" fresh_db traffic traffic-Avoids

granted :
    (refresh_token_grant later (some form) fresh_db).0 ≡ reply (token_pair "access-a2" "refresh-j2")
unfolding refresh_token_grant extract_refresh_token verify_and_validate_claims
    check_not_service_account check_token_epoch select_refresh_row check_idle_timeout
    idle_timeout_setting refresh_idp_membership_and_allowlist decrypt_nullable mint_token_pair
    insert_token mint_access_jwt mint_refresh_jwt
granted = refl

issued_only_if_example :
    (token : String) × (claims : Claims) × (row : RefreshRow) × Deserved later fresh_db token claims
      row
issued_only_if_example =
    issued_only_if later (some form) fresh_db (refresh_token_grant later (some form) fresh_db).1
      "access-a2" "refresh-j2"
      (ap (λ a. (a, (refresh_token_grant later (some form) fresh_db).1)) granted)

-- The row that the rotation at second 100 used up.
abbrev spent_row : RefreshRow
spent_row = mark 100 rotated live_row

abbrev unchecked : RecheckOutcome
unchecked = record { performed = false; allowlist_match = none; user_row = some ann }

hard_reuse_ends_family_example :
    let (answer, after) = rotate_or_reuse later old_claims spent_row unchecked claimed_db in
    (answer ≡ reply (oauth_error 401 "invalid_grant" "Refresh token chain revoked" false))
    × Dead (in_family spent_row.family_id) after
    × (after ≡ record claimed_db {
      tokens = after.tokens;
      audits = insert_row (chain_revoked "j1" spent_row.family_id hard_reuse) claimed_db.audits;
    })
hard_reuse_ends_family_example =
    hard_reuse_ends_family later old_claims spent_row unchecked claimed_db 100 refl
      (inl (omega arith))

abbrev new_pair : MintedPair
new_pair = minted later (successor_of later live_row (some ann))

finished : (finish_rotation later old_claims live_row (some ann) claimed_db).0 ≡ done new_pair
unfolding finish_rotation mint_token_pair insert_token
finished = refl

late_successor_lives_example :
    any
      (λ r. in_family (some "f") r && is_live r)
      (finish_rotation later old_claims live_row (some ann) claimed_db).1.tokens
    ≡ true
late_successor_lives_example =
    late_successor_lives later old_claims live_row (some ann) claimed_db new_pair
      (finish_rotation later old_claims live_row (some ann) claimed_db).1 "f"
      (ap (λ a. (a, (finish_rotation later old_claims live_row (some ann) claimed_db).1)) finished)
      refl refl

bump_voids_example : Passes old_claims (bump_token_epoch 200 "ann" fresh_db).1 ↔ (
    (200 ≤ old_claims.iat)
    × (ann.token_epoch < old_claims.iat)
    × (get_epoch_floor "ann" fresh_db.floors ≤ old_claims.iat))
bump_voids_example = bump_voids 200 old_claims fresh_db ann refl

abbrev stranger : ProvisionArgs
stranger = record {
  idp_user_id = "8";
  email = "bob@acme";
  name = none;
  org_id = "acme";
  provider_name = "github";
  access_token = "t";
  idp_refresh_token = none;
}

bootstrap_exact_example :
    let (result, after) = provision_user later stranger fresh_db in
    (result.bootstrap_admin ≡ not (any is_admin fresh_db.users))
    × (result.role ≡ some "admin")
    × (after ≡ record fresh_db {
      users = insert_row (record (new_user later stranger) { role = some "admin" }) fresh_db.users;
      user_orgs =
          insert_row
            record { user_id = later.new_user; org_id = "acme"; role = "admin" }
            fresh_db.user_orgs;
    })
bootstrap_exact_example = bootstrap_exact later stranger fresh_db refl refl

abbrev fold_case : String → String
fold_case s = if s == "Acme" then "acme" else s

fold_case_twice : (s : String) → fold_case (fold_case s) ≡ fold_case s
fold_case_twice s = elim (Bool-cases (s == "Acme")) [ inl e ↦ rw e refl | inr e ↦ rw (e, e) refl ]

abbrev acme : String
acme = "Acme"

acme-ne : fold_case acme ≢ acme
acme-ne e = absurd (cc ((eq_iff (fold_case acme) acme).1 e))

mixed_case_denied_example :
    resolve_org_from_memberships (record later { sql_lower = fold_case }) ("Acme" ∷ []) fresh_db
    ≡ none
mixed_case_denied_example =
    mixed_case_denied (record later { sql_lower = fold_case }) fold_case_twice acme acme-ne fresh_db
