-- ===== src/Auth/Mint.antt =====
-- Minting and checking tokens: src/auth/jwt-keys.ts, src/auth/jwt-mint.ts, mintTokenPair and
-- computeFingerprint of src/auth/oauth-finalize.ts, and src/security/encrypt-nullable.ts.
use Prim.Native.String.{◌++◌}
use mcp_coordinator.Prelude.{
  ℕ, ◌+◌, ◌*◌, String, Bool, false, ◌&&◌, ◌||◌, not, Option, none, some, List, [], ◌∷◌, ◌==◌, any,
  includes, ◌⊎◌, inl, inr, or_null, is_some, if◌then◌else◌,
}
use mcp_coordinator.Table.{insert_row}
use mcp_coordinator.Auth.State.{
  AuthDb, Column, Context, Decrypted, plain, undecryptable, broken, Encryption, JwtKeyRegistry,
  RefreshRow, User, Org, has_jti,
}
use mcp_coordinator.Auth.Steps.{Step, done, thrown, pure, ◌>>◌}

abbrev pub accepted_kids : List String
accepted_kids = "hs256-v1" ∷ "hs256-v0" ∷ []

abbrev pub current_kid : String
current_kid = "hs256-v1"

unfoldable pub is_accepted_kid : String → Bool
is_accepted_kid kid = includes accepted_kids kid

-- The map of buildJwtKeyRegistry; an empty buffer is an object, and so a secret.
unfoldable pub get_key : JwtKeyRegistry → String → Option String
get_key keys kid =
    if kid == "hs256-v0"
    then keys.previous
    else if kid == current_kid
    then some keys.current
    else none

-- The key that verifyRefreshJwt hands to jwtVerify for a header; none where it throws.
unfoldable pub verification_key : JwtKeyRegistry → Option String → Option String
unfolding is_accepted_kid get_key
verification_key keys none = none
verification_key keys (some kid) =
    if kid == "" || not (is_accepted_kid kid) then none else get_key keys kid

-- publicUrl.replace(/\/$/, "")
unfoldable pub strip_slash : String → String
strip_slash String.[] = ""
strip_slash (String.◌∷◌ c s) =
    let rest = strip_slash s in if String.◌∷◌ c s == "/" then "" else String.◌∷◌ c rest

abbrev pub access_ttl_s : ℕ
access_ttl_s = 15 * 60

abbrev pub refresh_ttl_s : ℕ
refresh_ttl_s = 30 * 24 * 3600

abbrev pub given_or {ℓ} : {A : Type ℓ} → Option A → A → A
given_or none b = b
given_or (some a) b = a

-- What an access token says beyond what every token says.
pub record AccessClaims : Type 0 where
  pub sub : String
  pub active_org_id : String
  pub family_id : String
  pub role : String
  pub service_account : Bool
  pub scope : Option String
  pub issued_by : Option String

abbrev pub plain_access : String → String → String → String → AccessClaims
plain_access sub org family role = record {
  sub = sub;
  active_org_id = org;
  family_id = family;
  role = role;
  service_account = false;
  scope = none;
  issued_by = none;
}

-- mintAccessJWT: the pinned instant, or the clock's.
unfoldable pub mint_access_jwt : Context → AccessClaims → ℕ → Option ℕ → Option String → String
mint_access_jwt ctx claims ttl iat jti = ctx.sign ctx.keys.current record {
  sub = claims.sub;
  active_org_id = claims.active_org_id;
  family_id = claims.family_id;
  role = some claims.role;
  parent_jti = none;
  scope = claims.scope;
  issued_by = claims.issued_by;
  service_account = claims.service_account;
  typ = "access";
  kid = current_kid;
  issuer = strip_slash ctx.public_url;
  jti = given_or jti ctx.new_access_jti;
  iat = given_or iat ctx.wall;
  exp = given_or iat ctx.wall + ttl;
}

-- mintRefreshJWT, with the subject, the organisation, the family and the parent of its claims.
unfoldable pub mint_refresh_jwt :
    Context → String → String → String → Option String → ℕ → String → Option ℕ → String
mint_refresh_jwt ctx sub org family parent ttl jti iat = ctx.sign ctx.keys.current record {
  sub = sub;
  active_org_id = org;
  family_id = family;
  role = none;
  parent_jti = parent;
  scope = none;
  issued_by = none;
  service_account = false;
  typ = "refresh";
  kid = current_kid;
  issuer = strip_slash ctx.public_url;
  jti = jti;
  iat = given_or iat ctx.wall;
  exp = given_or iat ctx.wall + ttl;
}

pub record MintOptions : Type 0 where
  pub user_id : String
  pub primary_org_id : String
  pub role : String
  pub family_id : Option String
  pub fingerprint : Option String

pub record MintedPair : Type 0 where
  pub access_jwt : String
  pub refresh_jwt : String
  pub refresh_jti : String
  pub family_id : String
  pub expires_at_refresh : ℕ

-- INSERT INTO refresh_tokens: jti is UNIQUE, user_id and org_id are foreign keys.
abbrev pub violates : RefreshRow → AuthDb → Bool
violates row db =
    any (has_jti row.jti) db.tokens
    || not (any (λ (u : User). u.id == row.user_id) db.users)
    || not (any (λ (o : Org). o.id == row.org_id) db.orgs)

unfoldable pub insert_token : RefreshRow → Step (Unit {0})
insert_token row db =
    if violates row db
    then (thrown, db)
    else (done tt, record db { tokens = insert_row row db.tokens })

abbrev pub fresh_row : Context → MintOptions → RefreshRow
fresh_row ctx opts = record {
  jti = ctx.new_jti;
  user_id = opts.user_id;
  org_id = opts.primary_org_id;
  family_id = some (given_or opts.family_id ctx.new_family);
  parent_jti = none;
  revoked_at = none;
  revoked_reason = none;
  consumer_fingerprint = opts.fingerprint;
  expires_at = ctx.now + refresh_ttl_s;
  last_used_at = some ctx.now;
  replay_count = 0;
}

abbrev pub minted : Context → MintOptions → MintedPair
minted ctx opts =
    let family = given_or opts.family_id ctx.new_family in
    record {
      access_jwt =
          mint_access_jwt ctx (plain_access opts.user_id opts.primary_org_id family opts.role)
            access_ttl_s none none;
      refresh_jwt =
          mint_refresh_jwt ctx opts.user_id opts.primary_org_id family none refresh_ttl_s
            ctx.new_jti none;
      refresh_jti = ctx.new_jti;
      family_id = family;
      expires_at_refresh = ctx.now + refresh_ttl_s;
    }

-- mintTokenPair, with the default lifetimes.
unfoldable pub mint_token_pair : Context → MintOptions → Step MintedPair
mint_token_pair ctx opts = insert_token (fresh_row ctx opts) >> pure (minted ctx opts)

unfoldable pub compute_fingerprint : Context → Option String
compute_fingerprint ctx =
    if not (is_some (or_null ctx.ip)) && not (is_some (or_null ctx.user_agent))
    then none
    else some (ctx.sha256 (given_or ctx.ip "" ++ "|" ++ given_or ctx.user_agent ""))

unfoldable pub encrypt_nullable :
    Encryption → String → Column → String → Option String → Option String
encrypt_nullable e org column user none = none
encrypt_nullable e org column user (some s) =
    if s == "" then none else some (e.encrypt org column user s)

-- The plain text, if there is any; DecryptionError and UnknownCipherVersion; other errors.
unfoldable pub decrypt_nullable :
    Encryption → String → Column → String → Option String → Decrypted ⊎ Option String
decrypt_nullable e org column user none = inr none
decrypt_nullable e org column user (some s) = elim (e.decrypt org column user s) [
  | plain t ↦ inr (some t)
  | undecryptable ↦ inl undecryptable
  | broken ↦ inl broken
]
