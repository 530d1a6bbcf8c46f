-- ===== src/Auth/State.antt =====
-- The tables of src/database.ts that sessions use, the maps that the process keeps beside them, and
-- what the handlers take from outside: jose, node:crypto, the identity providers, the request.
use mcp_coordinator.Prelude.{ℕ, String, Bool, true, false, Option, none, some, List, ◌==◌}
use mcp_coordinator.RateLimit.{Bucket}

pub data RevokedReason : Type 0 where
  rotated : RevokedReason
  reuse_detected : RevokedReason
  idle_expired : RevokedReason
  admin : RevokedReason
  logout : RevokedReason
  logout_all : RevokedReason

-- A row of refresh_tokens. Instants are Unix seconds.
pub record RefreshRow : Type 0 where
  pub jti : String
  pub user_id : String
  pub org_id : String
  pub family_id : Option String
  pub parent_jti : Option String
  pub revoked_at : Option ℕ
  pub revoked_reason : Option RevokedReason
  pub consumer_fingerprint : Option String
  pub expires_at : ℕ
  pub last_used_at : Option ℕ
  pub replay_count : ℕ

pub record User : Type 0 where
  pub id : String
  pub primary_org_id : String
  pub email : String
  pub name : Option String
  pub idp_provider : String
  pub idp_user_id : String
  pub idp_access_token : Option String
  pub idp_refresh_token : Option String
  pub role : Option String
  pub token_epoch : ℕ
  pub last_login_at : Option ℕ

pub record Org : Type 0 where
  pub id : String
  pub name : String
  pub allowlist_github_org : Option String
  pub session_idle_timeout : Option String

pub record UserOrg : Type 0 where
  pub user_id : String
  pub org_id : String
  pub role : String

pub data Invalid : Type 0 where
  verification_failed : Invalid
  wrong_token_type : Invalid
  token_epoch_exceeded : Invalid
  row_not_found : Invalid

pub data Breach : Type 0 where
  hard_reuse : Breach
  no_successor : Breach
  replay_threshold_hit : Breach

-- The events handed to audit(), each with what its metadata names.
pub data Audit : Type 0 where
  invalid_token : Invalid → Audit
  chain_revoked : String → Option String → Breach → Audit
  suspicious_replay : String → Option String → ℕ → Audit
  not_in_org : String → String → Audit
  refresh_idle_expired : String → String → Audit
  refresh_rotated : String → String → String → Audit
  decrypt_failed : String → Audit
  idp_token_revoked : String → Audit
  idp_token_refreshed : String → Audit
  logout_local : String → Option String → Audit
  logout_global : String → Audit
  token_revoked : String → String → Audit

-- An entry of the membership cache, under its key.
pub record CacheEntry : Type 0 where
  pub key : String
  pub memberships : List String
  pub ts : ℕ

-- _floorByUser and _globalFloor
pub record Floors : Type 0 where
  pub by_user : List (String × ℕ)
  pub everyone : ℕ

pub record AuthDb : Type 0 where
  pub tokens : List RefreshRow
  pub users : List User
  pub user_orgs : List UserOrg
  pub orgs : List Org
  pub audits : List Audit
  pub cache : List CacheEntry
  pub floors : Floors
  pub buckets : List Bucket

-- The claims of a token. A claim that may be absent is an Option.
pub record Claims : Type 0 where
  pub sub : String
  pub active_org_id : String
  pub family_id : String
  pub jti : String
  pub iat : ℕ
  pub service_account : Bool
  pub typ : Option String

-- What SignJWT is given.
pub record Payload : Type 0 where
  pub sub : String
  pub active_org_id : String
  pub family_id : String
  pub role : Option String
  pub parent_jti : Option String
  pub scope : Option String
  pub issued_by : Option String
  pub service_account : Bool
  pub typ : String
  pub kid : String
  pub issuer : String
  pub jti : String
  pub iat : ℕ
  pub exp : ℕ

-- The errors of a provider's call: IdPTokenRevoked, IdPTransientError, or any other.
pub data Fetched (A : Type 0) : Type 0 where
  got : A → Fetched A
  token_gone : Fetched A
  transient : Fetched A
  failed : Fetched A

pub data Strategy : Type 0 where
  by_memberships : Strategy
  by_idp_org_id : Strategy
  by_id_token_groups : Strategy
  unrestricted : Strategy

pub record Refreshed : Type 0 where
  pub access_token : String
  pub refresh_token : Option String

-- The interface IdPProvider.
pub record Provider : Type 0 where
  pub name : String
  pub strategy : Option Strategy
  pub refresh_idp_token : Option (String → Fetched Refreshed)
  pub list_memberships : Option (String → Fetched (List String))

pub data Column : Type 0 where
  idp_access_token : Column
  idp_refresh_token : Column

-- DecryptionError and UnknownCipherVersion are `undecryptable`.
pub data Decrypted : Type 0 where
  plain : String → Decrypted
  undecryptable : Decrypted
  broken : Decrypted

-- The interface EncryptionProvider: the organisation, the column and the user are its context.
pub record Encryption : Type 0 where
  pub encrypt : String → Column → String → String → String
  pub decrypt : String → Column → String → String → Decrypted

-- What buildJwtKeyRegistry is given: the secret that signs, and one that only verifies.
pub record JwtKeyRegistry : Type 0 where
  pub current : String
  pub previous : Option String

-- AuthHandlerContext, the libraries behind it, and one request at one instant.
pub record Context : Type 0 where
  pub now : ℕ
  pub wall : ℕ
  pub public_url : String
  pub keys : JwtKeyRegistry
  pub jwt_verify : (Option String → Option String) → String → ℕ → String → Option Claims
  pub sign : String → Payload → String
  pub decode_jti : String → Option String
  pub utf16_length : String → ℕ
  pub sha256 : String → String
  -- toLowerCase, and SQLite's LOWER, which leaves what is not ASCII
  pub lower : String → String
  pub sql_lower : String → String
  pub sorted_before : String → String → Bool
  pub env_var : String → Option String
  pub has_idle_column : Bool
  pub new_jti : String
  pub new_access_jti : String
  pub new_family : String
  pub new_user : String
  pub ip : Option String
  pub user_agent : Option String
  pub providers : String → Option Provider
  pub encryption : Encryption
  pub held : String → Bool
  pub shared : String → Option CacheEntry

abbrev pub same_reason : RevokedReason → RevokedReason → Bool
same_reason rotated rotated = true
same_reason reuse_detected reuse_detected = true
same_reason idle_expired idle_expired = true
same_reason admin admin = true
same_reason logout logout = true
same_reason logout_all logout_all = true
same_reason r s = false

-- WHERE jti = ?
abbrev pub has_jti : String → RefreshRow → Bool
has_jti jti r = r.jti == jti

-- revoked_at IS NULL
abbrev pub is_live : RefreshRow → Bool
is_live r = elim r.revoked_at [ none ↦ true | some t ↦ false ]

-- SET revoked_at = ?, revoked_reason = ?
abbrev pub mark : ℕ → RevokedReason → RefreshRow → RefreshRow
mark now reason r = record r { revoked_at = some now; revoked_reason = some reason }
