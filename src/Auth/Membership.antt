-- ===== src/Auth/Membership.antt =====
-- What a session still rests on at the identity provider: src/auth/membership-cache.ts,
-- src/auth/allowlist.ts, getOrgSetting of src/auth/org-settings.ts at the key of the idle timeout.
-- The LRU cache is a parameter by which keys it still holds, and the shared store by what it answers.
pub mod Case
use Prim.Native.String.{◌++◌}
use mcp_coordinator.Prelude.{
  ℕ, ◌-◌, String, Bool, true, false, ◌&&◌, not, Option, none, some, List, [], ◌∷◌, ◌==◌, map,
  includes, select, ltb, if◌then◌else◌,
}
use mcp_coordinator.Table.{find_row}
use mcp_coordinator.Auth.State.{
  AuthDb, CacheEntry, Context, Fetched, got, token_gone, transient, failed, Provider, Org,
}

abbrev pub positive_ttl_s : ℕ
positive_ttl_s = 60

abbrev pub stale_max_s : ℕ
stale_max_s = 600

abbrev pub cache_key : Context → String → String → String
cache_key ctx user provider = ctx.sha256 (user ++ "|" ++ provider)

-- this.cache.get(key)
unfoldable pub cached : Context → String → AuthDb → Option CacheEntry
cached ctx key db =
    if ctx.held key then find_row (λ (e : CacheEntry). e.key == key) db.cache else none

-- this.cache.set(key, entry)
unfoldable pub remember : CacheEntry → AuthDb → AuthDb
remember e db = record db { cache = e ∷ select (λ (f : CacheEntry). not (f.key == e.key)) db.cache }

abbrev pub is_fresh : ℕ → ℕ → CacheEntry → Bool
is_fresh now ttl e = ltb (now - e.ts) ttl

abbrev pub entry_within : ℕ → ℕ → Option CacheEntry → Option CacheEntry
entry_within now ttl none = none
entry_within now ttl (some e) = if is_fresh now ttl e then some e else none

-- What the provider answers, with the entry to fall back on.
unfoldable pub settle :
    Context
    → String
    → Option CacheEntry
    → Fetched (List String)
    → AuthDb
    → Fetched (List String) × AuthDb
unfolding remember
settle ctx key entry (got raw) db =
    let names = map ctx.lower raw in
    (got names, remember (record { key = key; memberships = names; ts = ctx.now }) db)
settle ctx key entry transient db = elim (entry_within ctx.now stale_max_s entry) [
  | none ↦ (transient, db)
  | some e ↦ (got e.memberships, db)
]
settle ctx key entry token_gone db = (token_gone, db)
settle ctx key entry failed db = (failed, db)

-- provider.listMemberships(accessToken), or ProviderCapabilityError
unfoldable pub ask :
    Context
    → String
    → Option CacheEntry
    → Provider
    → String
    → AuthDb
    → Fetched (List String) × AuthDb
unfolding settle
ask ctx key entry provider token db = elim provider.list_memberships [
  | none ↦ (failed, db)
  | some list ↦ settle ctx key entry (list token) db
]

unfoldable pub get_memberships :
    Context → String → Provider → String → AuthDb → Fetched (List String) × AuthDb
unfolding cached remember ask
get_memberships ctx user provider token db =
    let key = cache_key ctx user provider.name in
    let entry = cached ctx key db in
    elim (entry_within ctx.now positive_ttl_s entry) [
      | some e ↦ (got e.memberships, db)
      | none ↦ elim (entry_within ctx.now positive_ttl_s (ctx.shared key)) [
        | some e ↦ (got e.memberships, remember (record e { key = key }) db)
        | none ↦ ask ctx key entry provider token db
      ]
    ]

pub record AllowlistMatch : Type 0 where
  pub org_id : String
  pub org_name : String
  pub matched_org_login : String

-- ORDER BY allowlist_github_org ASC LIMIT 1
unfoldable pub first_of : Context → List (Org × String) → Option AllowlistMatch
first_of ctx [] = none
first_of ctx ((o, login) ∷ rest) =
    let here : AllowlistMatch = record {
      org_id = o.id;
      org_name = o.name;
      matched_org_login = login;
    } in
    elim (first_of ctx rest) [
      | none ↦ some here
      | some m ↦ some (if ctx.sorted_before m.matched_org_login login then m else here)
    ]

-- WHERE LOWER(allowlist_github_org) IN (…), with the value of that column
abbrev pub logins : Context → List String → List Org → List (Org × String)
logins ctx memberships [] = []
logins ctx memberships (o ∷ rest) =
    let more = logins ctx memberships rest in
    elim o.allowlist_github_org [
      | none ↦ more
      | some login ↦ if includes memberships (ctx.sql_lower login) then (o, login) ∷ more else more
    ]

unfoldable pub resolve_org_from_memberships : Context → List String → AuthDb → Option AllowlistMatch
unfolding first_of
resolve_org_from_memberships ctx [] db = none
resolve_org_from_memberships ctx (m ∷ ms) db = first_of ctx (logins ctx (m ∷ ms) db.orgs)

-- The column, where there is one and an organisation is named.
abbrev pub stored_setting : Context → String → AuthDb → Option String
stored_setting ctx org db =
    if not (org == "") && ctx.has_idle_column
    then (elim (find_row (λ (o : Org). o.id == org) db.orgs) [
      | none ↦ none
      | some o ↦ o.session_idle_timeout
    ])
    else none

-- getOrgSetting(db, org, "session_idle_timeout", "")
unfoldable pub idle_timeout_setting : Context → String → AuthDb → String
idle_timeout_setting ctx org db = elim (stored_setting ctx org db) [
  | some value ↦ value
  | none ↦ elim (ctx.env_var "COORDINATOR_SESSION_IDLE_TIMEOUT") [ none ↦ "" | some value ↦ value ]
]
