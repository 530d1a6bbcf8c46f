-- ===== src/Agents.antt =====
-- src/agent-registry.ts: the class AgentRegistry over the table agents, whose primary key is
-- (org_id, id). Columns hold CURRENT_TIMESTAMP.
pub mod Presence
use mcp_coordinator.Prelude.{
  ℕ, ◌+◌, ◌/◌, String, ◌≡◌, Bool, true, false, not, ◌&&◌, List, Option, none, some, ◌==◌, any, leb,
  ltb, select, if◌then◌else◌,
}
use mcp_coordinator.Clock.{current_timestamp, to_seconds}
use mcp_coordinator.Table.{find_row, insert_row, update_where}
use mcp_coordinator.Store.{Env, Db, Agent, online, offline, is_online}

abbrev pub default_online_ttl_seconds : ℕ
default_online_ttl_seconds = 900

-- The argument is the number that Number.parseInt reads from the setting, where there is one.
abbrev pub online_ttl_seconds : Option ℕ → ℕ
online_ttl_seconds none = default_online_ttl_seconds
online_ttl_seconds (some n) = if ltb 0 n then n else default_online_ttl_seconds

abbrev pub is_agent : String → String → Agent → Bool
is_agent org id a = a.org_id == org && a.id == id

abbrev pub get_agent : String → String → Db → Option Agent
get_agent org id db = find_row (is_agent org id) db.agents

-- INSERT … ON CONFLICT(org_id, id) DO UPDATE SET …
unfoldable pub register : Env → String → String → String → List String → Db → Db
register env org id name modules db =
    let now = current_timestamp env.now in
    record db {
      agents =
          if any (is_agent org id) db.agents
          then update_where (is_agent org id)
              (λ a. record a {
                name = name;
                modules = modules;
                status = online;
                last_seen_at = now;
              })
              db.agents
          else insert_row
              (record {
                id = id;
                org_id = org;
                name = name;
                modules = modules;
                status = online;
                registered_at = now;
                last_seen_at = now;
              })
              db.agents;
    }

-- status = 'online' AND strftime('%s', 'now') - strftime('%s', last_seen_at) <= ?
abbrev pub is_listed : ℕ → ℕ → String → Agent → Bool
is_listed now ttl org a =
    a.org_id == org && is_online a && leb (now / 1000) (to_seconds a.last_seen_at + ttl)

unfoldable pub list_online : ℕ → ℕ → String → Db → List Agent
list_online now ttl org db = select (is_listed now ttl org) db.agents

abbrev pub list_all : String → Db → List Agent
list_all org db = select (λ (a : Agent). a.org_id == org) db.agents

unfoldable pub set_online : Env → String → String → Db → Db
set_online env org id db = record db {
  agents =
      update_where (is_agent org id)
        (λ a. record a { status = online; last_seen_at = current_timestamp env.now }) db.agents;
}

unfoldable pub set_offline : Env → String → String → Db → Db
set_offline env org id db = record db {
  agents =
      update_where (is_agent org id)
        (λ a. record a { status = offline; last_seen_at = current_timestamp env.now }) db.agents;
}

unfoldable pub heartbeat : Env → String → String → Db → Db
heartbeat env org id db = record db {
  agents =
      update_where (is_agent org id)
        (λ a. record a { status = online; last_seen_at = current_timestamp env.now }) db.agents;
}

-- An unknown agent is stale.
unfoldable pub is_stale : ℕ → ℕ → String → String → Db → Bool
is_stale now ttl org id db = elim (get_agent org id db) [
  | none ↦ true
  | some a ↦ ltb (to_seconds a.last_seen_at + ttl) (now / 1000)
]
