-- ===== src/Workflow/Company.antt =====
-- Whom the flow finds, in terms of the rows of the agents: its respondents, and who else is online.
use mcp_coordinator.Prelude.{
  ◌+◌, ◌/◌, ◌≤◌, String, ◌≡◌, ◌≢◌, ◌↔◌, ◌⊎◌, refl, sym, ap, subst, ◌∙◌, inl, inr, Bool, true, false,
  not, ◌||◌, List, [], ◌∷◌, map, ◌==◌, eq_iff, any, is_empty, leb, leb→le, select, arith, Memᴰ,
  head, tail, Bool-cases, Mem_of_select, Mem-select,
}
use mcp_coordinator.Clock.{to_seconds}
use mcp_coordinator.Store.{Env, Db, Agent, AgentStatus, online, offline}
use mcp_coordinator.Agents.{is_listed, list_online}
use mcp_coordinator.Impact.{
  Tables, ImpactScore, score_agent, score, categorize, all_active, recent_index, in_flight_index,
}
use mcp_coordinator.Impact.Layers.{announces_same, touches, concerned_exact}
use mcp_coordinator.Workflow.{Review, reviewed_tables, concerned_ids, nobody_else}

-- The agent of the organisation is online, and was seen within the time to live.
pub record IsPresent (env : Env) (r : Review) (a : Agent) : Type 0 where
  pub here : a.org_id ≡ r.params.org_id
  pub up : a.status ≡ online
  pub seen : env.now / 1000 ≤ to_seconds a.last_seen_at + r.ttl

-- The agent has announced one of the files, has edited one lately or is editing one.
abbrev pub is_involved : Env → Review → Db → Agent → Bool
is_involved env r db a =
    let tables = reviewed_tables r db in
    any (announces_same r.params a.id) (all_active env r.params db)
    || any (touches (recent_index env r.params tables) (in_flight_index env r.params tables) a.id)
        r.params.target_files

-- The id is that of an agent that is present, involved, and not the announcer.
pub record IsConcerned (env : Env) (r : Review) (db : Db) (id : String) : Type 0 where
  pub who : Agent
  pub listed : Memᴰ who db.agents
  pub named : who.id ≡ id
  pub other : who.id ≢ r.params.agent_id
  pub present : IsPresent env r who
  pub involved : is_involved env r db who ≡ true

module _ {A B : Type 0} (f : A → B) where
  Mem-map : {a : A} {xs : List A} → Memᴰ a xs → Memᴰ (f a) (map f xs)
  Mem-map (head e) = head (ap f e)
  Mem-map (tail m) = tail (Mem-map m)

  Mem_of_map : {b : B} (xs : List A) → Memᴰ b (map f xs) → (a : A) × Memᴰ a xs × (b ≡ f a)
  Mem_of_map [] m = elim m [ ]
  Mem_of_map (x ∷ xs) (head e) = (x, head refl, e)
  Mem_of_map (x ∷ xs) (tail m) = let (a, n, e) = Mem_of_map xs m in (a, tail n, e)

pub empty_or_not :
    {A : Type 0} (xs : List A)
    → ((is_empty xs ≡ true) × (xs ≡ [])) ⊎ ((is_empty xs ≡ false) × ((a : A) × Memᴰ a xs))
empty_or_not [] = inl (refl, refl)
empty_or_not (x ∷ xs) = inr (refl, (x, head refl))

at_online : (s : AgentStatus) → elim s [ online ↦ true | offline ↦ false ] ≡ true → s ≡ online
at_online online e = refl
at_online offline e = cc e

module _ (env : Env) (r : Review) where
  IsPresent-of_listed :
      (a : Agent) → is_listed env.now r.ttl r.params.org_id a ≡ true → IsPresent env r a
  IsPresent-of_listed a h = record {
    here = (eq_iff a.org_id r.params.org_id).0 (ground arith);
    up = at_online a.status (ground arith);
    seen = leb→le _ _ (ground arith);
  }

  listed-of_IsPresent :
      (a : Agent) → IsPresent env r a → is_listed env.now r.ttl r.params.org_id a ≡ true
  listed-of_IsPresent a p =
      let same = (eq_iff a.org_id r.params.org_id).1 p.here in
      let seen : leb (env.now / 1000) (to_seconds a.last_seen_at + r.ttl) ≡ true =
        ground (arith, p.seen) in
      rw (same, p.up, seen) refl

  apart_iff : (a : Agent) → (not (a.id == r.params.agent_id) ≡ true) ↔ (a.id ≢ r.params.agent_id)
  apart_iff a = (
    λ h e. absurd (cc ((eq_iff a.id r.params.agent_id).1 e, h)),
    λ n. elim (Bool-cases (a.id == r.params.agent_id)) [
      | inl e ↦ absurd (n ((eq_iff a.id r.params.agent_id).0 e))
      | inr e ↦ rw e refl
    ],
  )

  -- The respondents are those that are concerned.
  pub concerned_ids_iff :
      (db : Db) (id : String) → Memᴰ id (concerned_ids env r db) ↔ IsConcerned env r db id
  unfolding concerned_ids categorize score list_online
  concerned_ids_iff db id = (found, there)
    where
      tables : Tables
      tables = reviewed_tables r db

      listed : Agent → Bool
      listed = is_listed env.now r.ttl r.params.org_id

      apart : Agent → Bool
      apart a = not (a.id == r.params.agent_id)

      heavy : ImpactScore → Bool
      heavy x = leb 90 x.score

      found : Memᴰ id (concerned_ids env r db) → IsConcerned env r db id
      found m =
          let scored = score env r.params tables in
          let (x, n, e) = Mem_of_map (λ (x : ImpactScore). x.agent_id) (select heavy scored) m in
          let (k, ninety) = Mem_of_select heavy scored n in
          let (a, l, same) =
            Mem_of_map (score_agent env r.params tables) (select apart (select listed db.agents))
              k in
          let (o, far) = Mem_of_select apart (select listed db.agents) l in
          let (row, near) = Mem_of_select listed db.agents o in
          record {
            who = a;
            listed = row;
            named = ap (λ (x : ImpactScore). x.agent_id) (sym same) ∙ sym e;
            other = (apart_iff a).0 far;
            present = IsPresent-of_listed a near;
            involved = sym (concerned_exact env r.params tables a) ∙ (ap heavy (sym same) ∙ ninety);
          }

      there : IsConcerned env r db id → Memᴰ id (concerned_ids env r db)
      there c =
          let far = (apart_iff c.who).1 c.other in
          let near = listed-of_IsPresent c.who c.present in
          let row = Mem-select apart (Mem-select listed c.listed near) far in
          let scored = Mem-map (score_agent env r.params tables) row in
          let ninety = concerned_exact env r.params tables c.who ∙ c.involved in
          subst (λ i. Memᴰ i (concerned_ids env r db)) c.named
            (Mem-map (λ (x : ImpactScore). x.agent_id) (Mem-select heavy scored ninety))

  -- Nobody else is online: whoever is present is the announcer.
  pub nobody_else_iff :
      (db : Db)
      → (nobody_else env r db ≡ true)
        ↔ ((a : Agent) → Memᴰ a db.agents → IsPresent env r a → a.id ≡ r.params.agent_id)
  unfolding nobody_else list_online
  nobody_else_iff db = (
    λ h a m p. elim (Bool-cases (a.id == r.params.agent_id)) [
      | inl e ↦ (eq_iff a.id r.params.agent_id).0 e
      | inr e ↦
          let far : not (a.id == r.params.agent_id) ≡ true = ap not e in
          let row = Mem-select listed m (listed-of_IsPresent a p) in
          absurd (none_in others h (Mem-select apart row far))
    ],
    λ h. elim (empty_or_not others) [
      | inl (e, l) ↦ e
      | inr (e, (a, m)) ↦
          let (n, far) = Mem_of_select apart (select listed db.agents) m in
          let (row, near) = Mem_of_select listed db.agents n in
          absurd ((apart_iff a).0 far (h a row (IsPresent-of_listed a near)))
    ],
  )
    where
      listed : Agent → Bool
      listed = is_listed env.now r.ttl r.params.org_id

      apart : Agent → Bool
      apart a = not (a.id == r.params.agent_id)

      others : List Agent
      others = select apart (select listed db.agents)

      none_in : (xs : List Agent) {a : Agent} → is_empty xs ≡ true → Memᴰ a xs → ⊥
      none_in [] e m = elim m [ ]
      none_in (x ∷ xs) e m = cc e
