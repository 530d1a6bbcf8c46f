-- ===== src/Impact/Weights.antt =====
-- The range of the weights and of the scores.
use mcp_coordinator.Prelude.{
  ◌≤◌, ◌≡◌, refl, ◌∙◌, max, String, Bool, false, ◌&&◌, ◌||◌, List, [], ◌∷◌, map, any, any-flat_map,
  any_none, any-select, flat_map, ◌==◌, includes, is_empty, ltb, eq_ℕ, select, arith,
}
use mcp_coordinator.Store.{Env, Agent, Thread}
use mcp_coordinator.Files.{agents_at, AgentIndex, FileActivity}
use mcp_coordinator.Impact.{
  Hit, AnnounceParams, CoChange, Tables, hit_if, thread_hits, layer_0, file_hits, layer_1, layer_2,
  layer_3, layer_4_score, layer_4_candidates, is_candidate, co_change_hit, layer_4, agent_hits, top,
  score_agent, listed_or_empty, depends_on, all_active, recent_index, in_flight_index,
}
use mcp_coordinator.Impact.Layers.{agent_hits-any}

-- A weight out of range.
abbrev odd : Hit → Bool
odd h = eq_ℕ h.weight 0 || ltb 100 h.weight

layer_0-odd :
    (p : AnnounceParams) (active : List Thread) (agent : String)
    → any odd (layer_0 p active agent) ≡ false
unfolding layer_0 thread_hits
layer_0-odd p active agent =
    let mine = select (λ (t : Thread). t.initiator_id == agent) active in
    any-flat_map odd (thread_hits p) mine
    ∙ any_none (λ t. any odd (thread_hits p t)) mine (λ t. ground arith)

layer_1-odd :
    (p : AnnounceParams) (edits : List FileActivity) (recent in_flight : AgentIndex)
    (agent : String)
    → any odd (layer_1 p edits recent in_flight agent) ≡ false
layer_1-odd p edits recent in_flight agent =
    any-flat_map odd (file_hits p edits recent in_flight agent) p.target_files
    ∙ any_none (λ f. any odd (file_hits p edits recent in_flight agent f)) p.target_files
        (λ f. ground arith)

layer_2-odd :
    (p : AnnounceParams) (recent : AgentIndex) (agent : String)
    → any odd (layer_2 p recent agent) ≡ false
layer_2-odd p recent agent =
    let hits : String → List Hit =
      λ f. hit_if (includes (agents_at f recent) agent) 80 (depends_on f) in
    any-flat_map odd hits (listed_or_empty p.depends_on_files)
    ∙ any_none (λ f. any odd (hits f)) (listed_or_empty p.depends_on_files) (λ f. ground arith)

layer_3-odd : (p : AnnounceParams) (a : Agent) → any odd (layer_3 p a) ≡ false
layer_3-odd p a = ground arith

candidate-odd :
    (env : Env) (p : AnnounceParams) (s : Tables) (agent file : String) (row : CoChange)
    → (is_candidate p.org_id file row && any odd (co_change_hit env p s agent file row)) ≡ false
unfolding layer_4_score
candidate-odd env p s agent file row = ground arith

layer_4-odd :
    (env : Env) (p : AnnounceParams) (s : Tables) (agent : String)
    → any odd (layer_4 env p s agent) ≡ false
unfolding layer_4 layer_4_candidates
layer_4-odd env p s agent =
    let hits : String → List Hit = λ file.
      flat_map (co_change_hit env p s agent file) (layer_4_candidates p.org_id file s.cochange) in
    any-flat_map odd hits p.target_files
    ∙ any_none (λ file. any odd (hits file)) p.target_files
        λ file.
          any-flat_map odd (co_change_hit env p s agent file)
            (layer_4_candidates p.org_id file s.cochange)
          ∙ any-select (λ row. any odd (co_change_hit env p s agent file row))
              (is_candidate p.org_id file) s.cochange
          ∙ any_none
              (λ row.
                is_candidate p.org_id file row && any odd (co_change_hit env p s agent file row))
              s.cochange (candidate-odd env p s agent file)

agent_hits-odd :
    (env : Env) (p : AnnounceParams) (s : Tables) (a : Agent)
    → any odd (agent_hits env p s a) ≡ false
agent_hits-odd env p s a =
    agent_hits-any env p s a odd
    ∙ rw (
      layer_0-odd p (all_active env p s.db) a.id,
      layer_1-odd p s.edits (recent_index env p s) (in_flight_index env p s) a.id,
      layer_2-odd p (recent_index env p s) a.id,
      layer_3-odd p a,
      layer_4-odd env p s a.id,
    )

top_le : (hits : List Hit) → any odd hits ≡ false → top hits ≤ 100
top_le [] h = omega arith
top_le (x ∷ hits) h =
    let rest = top_le hits (ground arith) in let here : x.weight ≤ 100 = ground arith in omega arith

top_zero :
    (hits : List Hit)
    → any odd hits ≡ false
    → eq_ℕ (top hits) 0 ≡ is_empty (map (λ (x : Hit). x.reason) hits)
top_zero [] h = refl
top_zero (x ∷ hits) h =
    let here : 1 ≤ x.weight = ground arith in
    let more : 1 ≤ max x.weight (top hits) = omega arith in ground (arith, more)

-- Every score is at most 100, and it is 0 exactly where no reason was found.
pub score_range :
    (env : Env) (p : AnnounceParams) (s : Tables) (a : Agent)
    → ((score_agent env p s a).score ≤ 100)
      × (eq_ℕ (score_agent env p s a).score 0 ≡ is_empty (score_agent env p s a).reasons)
unfolding score_agent
score_range env p s a = (
  top_le (agent_hits env p s a) (agent_hits-odd env p s a),
  top_zero (agent_hits env p s a) (agent_hits-odd env p s a),
)
