-- ===== src/Agents/Presence.antt =====
-- Who listOnline lists after each operation.
use mcp_coordinator.Prelude.{
  ℕ, ◌+◌, ◌/◌, ◌≤◌, ◌≡◌, refl, sym, ap, ◌∙◌, inl, inr, String, Bool, true, false, not, ◌&&◌, List,
  [], ◌∷◌, some, ◌==◌, any, any-select, any_of_Mem, any_witness, arith, leb, Bool-cases, Memᴰ,
}
use mcp_coordinator.Clock.{current_timestamp, to_seconds}
use mcp_coordinator.Table.{find_row-Mem, update_where, Mem-update_where}
use mcp_coordinator.Store.{Env, Db, Agent, online, offline, is_online}
use mcp_coordinator.Agents.{
  is_agent, get_agent, is_listed, list_online, set_offline, heartbeat, is_stale,
}

-- listOnline of the organisation lists the agent.
abbrev pub is_present : ℕ → ℕ → String → String → Db → Bool
is_present now ttl org id db = any (λ (a : Agent). a.id == id) (list_online now ttl org db)

is_present_lem :
    (now ttl : ℕ) (org id : String) (db : Db)
    → is_present now ttl org id db ≡ any (λ a. is_listed now ttl org a && a.id == id) db.agents
unfolding list_online
is_present_lem now ttl org id db =
    any-select (λ (a : Agent). a.id == id) (is_listed now ttl org) db.agents

-- A known agent is listed for the whole time-to-live after its
-- heartbeat, whatever it was before.
pub present-heartbeat :
    (env : Env) (now ttl : ℕ) (org id : String) (db : Db) {a : Agent}
    → get_agent org id db ≡ some a
    → now / 1000 ≤ env.now / 1000 + ttl
    → is_present now ttl org id (heartbeat env org id db) ≡ true
unfolding heartbeat
present-heartbeat env now ttl org id db {a} found soon =
    let (m, key) = find_row-Mem (is_agent org id) db.agents found in
    let seen : Agent → Agent =
      λ x. record x { status = online; last_seen_at = current_timestamp env.now } in
    let n = Mem-update_where (is_agent org id) seen m in
    is_present_lem now ttl org id _ ∙ any_of_Mem _ (rw key at n) (ground (arith, key, soon))

-- An agent that was set offline is not listed, however recently it was seen.
pub present-set_offline :
    (env : Env) (now ttl : ℕ) (org id : String) (db : Db)
    → is_present now ttl org id (set_offline env org id db) ≡ false
unfolding set_offline
present-set_offline env now ttl org id db = is_present_lem now ttl org id _ ∙ gone db.agents
  where
    gone :
        (agents : List Agent)
        → any
            (λ a. is_listed now ttl org a && a.id == id)
            (update_where
              (is_agent org id)
              (λ a. record a { status = offline; last_seen_at = current_timestamp env.now })
              agents)
          ≡ false
    gone [] = refl
    gone (a ∷ agents) = ground (arith, gone agents)

-- An agent with the status online and one row in the table is stale if and only if listOnline does
-- not list it.
pub stale_exact :
    (now ttl : ℕ) (org id : String) (db : Db) {a : Agent}
    → get_agent org id db ≡ some a
    → is_online a ≡ true
    → ((b : Agent) → Memᴰ b db.agents → is_agent org id b ≡ true → b ≡ a)
    → is_stale now ttl org id db ≡ not (is_present now ttl org id db)
unfolding is_stale
stale_exact now ttl org id db {a} found up one =
    let (m, key) = find_row-Mem (is_agent org id) db.agents found in
    let shown : Agent → Bool = λ x. is_listed now ttl org x && x.id == id in
    rw (found, is_stale)
      (elim (Bool-cases (any shown db.agents)) [
        | inl h ↦
            let (b, n, e) = any_witness shown db.agents h in
            let same = one b n (ground arith) in
            let listed : shown a ≡ true = ap shown (sym same) ∙ e in
            rw (is_present_lem now ttl org id db ∙ h) (ground (arith, listed))
        | inr h ↦
            rw (is_present_lem now ttl org id db ∙ h)
              (elim (Bool-cases (leb (now / 1000) (to_seconds a.last_seen_at + ttl))) [
                | inl fresh ↦
                    let listed : shown a ≡ true = ground (arith, key, up, fresh) in
                    absurd (cc (any_of_Mem shown m listed, h))
                | inr old ↦ ground (arith, old)
              ])
      ])
