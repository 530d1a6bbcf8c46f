-- ===== src/Impact/Layers.antt =====
-- Which layers decide the category of an agent.
use mcp_coordinator.Prelude.{
  ℕ, ◌+◌, ◌≡◌, refl, ap, ◌∙◌, max, String, Bool, false, not, ◌&&◌, ◌||◌, List, [], ◌∷◌, ◌++◌, ◌==◌,
  any, any-append, any-select, any-flat_map, any_none, any_same, includes, is_empty, length, leb,
  ltb, select, arith,
}
use mcp_coordinator.Store.{Env, Agent, Thread}
use mcp_coordinator.Files.{FileActivity, AgentIndex, agents_at}
use mcp_coordinator.Impact.{
  Hit, Reason, ImpactScore, AnnounceParams, CoChange, Tables, hit_if, all_active, thread_hits,
  layer_0, file_hits, layer_1, layer_2, layer_3, layer_4_score, layer_4_candidates, co_change_hit,
  layer_4, recent_index, in_flight_index, agent_hits, top, score_agent, score, categorize,
  listed_or_empty, depends_on,
}

abbrev heavy : Hit → Bool
heavy h = leb 90 h.weight

leb-max : (n a b : ℕ) → leb n (max a b) ≡ leb n a || leb n b
leb-max n a b = ground arith

top-heavy : (hits : List Hit) → leb 90 (top hits) ≡ any heavy hits
top-heavy [] = refl
top-heavy (h ∷ hits) =
    leb-max 90 h.weight (top hits) ∙ ap (λ b. leb 90 h.weight || b) (top-heavy hits)

hit_if-heavy : (b : Bool) (w : ℕ) (r : Reason) → any heavy (hit_if b w r) ≡ b && leb 90 w
hit_if-heavy b w r = ground arith

is_empty-select : (q : String → Bool) (xs : List String) → not (is_empty (select q xs)) ≡ any q xs
is_empty-select q [] = refl
is_empty-select q (x ∷ xs) = ground (arith, is_empty-select q xs)

thread_hits-heavy :
    (p : AnnounceParams) (t : Thread)
    → any heavy (thread_hits p t) ≡ any (includes t.target_files) p.target_files
unfolding thread_hits
thread_hits-heavy p t = ground (arith, is_empty-select (includes t.target_files) p.target_files)

-- An active thread of the agent names one of the target files.
abbrev pub announces_same : AnnounceParams → String → Thread → Bool
announces_same p agent t = t.initiator_id == agent && any (includes t.target_files) p.target_files

layer_0-heavy :
    (p : AnnounceParams) (active : List Thread) (agent : String)
    → any heavy (layer_0 p active agent) ≡ any (announces_same p agent) active
unfolding layer_0
layer_0-heavy p active agent =
    any-flat_map heavy (thread_hits p) (select (λ (t : Thread). t.initiator_id == agent) active)
    ∙ any_same _ _ _ (thread_hits-heavy p)
    ∙ any-select (λ (t : Thread). any (includes t.target_files) p.target_files)
        (λ t. t.initiator_id == agent) active

-- The agent edited the file lately or is editing it.
abbrev pub touches : AgentIndex → AgentIndex → String → String → Bool
touches recent in_flight agent file =
    includes (agents_at file recent) agent || includes (agents_at file in_flight) agent

layer_1-heavy :
    (p : AnnounceParams) (edits : List FileActivity) (recent in_flight : AgentIndex)
    (agent : String)
    → any heavy (layer_1 p edits recent in_flight agent)
      ≡ any (touches recent in_flight agent) p.target_files
layer_1-heavy p edits recent in_flight agent =
    any-flat_map heavy (file_hits p edits recent in_flight agent) p.target_files
    ∙ any_same _ _ p.target_files (λ file. ground arith)

layer_2-heavy :
    (p : AnnounceParams) (recent : AgentIndex) (agent : String)
    → any heavy (layer_2 p recent agent) ≡ false
layer_2-heavy p recent agent =
    any-flat_map heavy
      (λ file. hit_if (includes (agents_at file recent) agent) 80 (depends_on file))
      (listed_or_empty p.depends_on_files)
    ∙ any_none
        (λ file. any heavy (hit_if (includes (agents_at file recent) agent) 80 (depends_on file)))
        (listed_or_empty p.depends_on_files) (λ file. ground arith)

layer_3-heavy : (p : AnnounceParams) (a : Agent) → any heavy (layer_3 p a) ≡ false
layer_3-heavy p a = ground arith

co_change_hit-heavy :
    (env : Env) (p : AnnounceParams) (s : Tables) (agent file : String) (row : CoChange)
    → any heavy (co_change_hit env p s agent file row) ≡ false
unfolding layer_4_score
co_change_hit-heavy env p s agent file row = ground arith

layer_4-heavy :
    (env : Env) (p : AnnounceParams) (s : Tables) (agent : String)
    → any heavy (layer_4 env p s agent) ≡ false
unfolding layer_4
layer_4-heavy env p s agent =
    any-flat_map heavy _ p.target_files
    ∙ any_none _ p.target_files (λ file.
      any-flat_map heavy (co_change_hit env p s agent file)
        (layer_4_candidates p.org_id file s.cochange)
      ∙ any_none _ (layer_4_candidates p.org_id file s.cochange)
          (co_change_hit-heavy env p s agent file))

pub agent_hits-any :
    (env : Env) (p : AnnounceParams) (s : Tables) (a : Agent) (c : Hit → Bool)
    → any c (agent_hits env p s a)
      ≡ any c (layer_0 p (all_active env p s.db) a.id)
        || (any c (layer_1 p s.edits (recent_index env p s) (in_flight_index env p s) a.id)
            || (any c (layer_2 p (recent_index env p s) a.id)
                || (any c (layer_3 p a) || any c (layer_4 env p s a.id))))
unfolding agent_hits
agent_hits-any env p s a c =
    let zero = layer_0 p (all_active env p s.db) a.id in
    let one = layer_1 p s.edits (recent_index env p s) (in_flight_index env p s) a.id in
    let two = layer_2 p (recent_index env p s) a.id in
    let three = layer_3 p a in
    let four = layer_4 env p s a.id in
    any-append c (zero ++ one ++ two ++ three) four
    ∙ rw
        (
          any-append c (zero ++ one ++ two) three,
          any-append c (zero ++ one) two,
          any-append c zero one,
        )
        (ground arith)

-- An agent is scored 90 or more if and only if one of its active threads names a target file, or
-- the index of recent edits or that of files in flight has the agent at a target file.
pub concerned_exact :
    (env : Env) (p : AnnounceParams) (s : Tables) (a : Agent)
    → leb 90 (score_agent env p s a).score
      ≡ any (announces_same p a.id) (all_active env p s.db)
        || any (touches (recent_index env p s) (in_flight_index env p s) a.id) p.target_files
unfolding score_agent
concerned_exact env p s a =
    top-heavy (agent_hits env p s a)
    ∙ agent_hits-any env p s a heavy
    ∙ rw
        (
          layer_0-heavy p (all_active env p s.db) a.id,
          layer_1-heavy p s.edits (recent_index env p s) (in_flight_index env p s) a.id,
          layer_2-heavy p (recent_index env p s) a.id,
          layer_3-heavy p a,
          layer_4-heavy env p s a.id,
        )
        (ground arith)

split_three :
    (xs : List ImpactScore)
    → length (select (λ (x : ImpactScore). leb 90 x.score) xs)
        + length (select (λ (x : ImpactScore). leb 30 x.score && ltb x.score 90) xs)
        + length (select (λ (x : ImpactScore). ltb x.score 30) xs)
      ≡ length xs
split_three [] = refl
split_three (x ∷ xs) = ground (arith, split_three xs)

-- The three categories together are as long as the list of scores.
pub categorize-total :
    (env : Env) (p : AnnounceParams) (s : Tables)
    → length (categorize env p s).concerned
        + length (categorize env p s).gray_zone
        + length (categorize env p s).pass
      ≡ length (score env p s)
unfolding categorize
categorize-total env p s = split_three (score env p s)
