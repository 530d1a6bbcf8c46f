-- ===== src/Examples/Awareness.antt =====
-- The theorems on the dependency map, the file trackers and the conflict detector, applied.
use mcp_coordinator.Prelude.{
  ◌≤◌, false, ◌≡◌, ◌≢◌, ◌↔◌, ◌⊎◌, refl, String, true, eq_iff, ◌||◌, ◌+◌, leb, eq_ℕ, is_empty, head,
  tail, ap, ◌&&◌, ◌==◌, List, [], ◌∷◌, ◌++◌, Memᴰ, none, some, any, includes, arith,
}
use mcp_coordinator.Dependencies.{ModuleInfo, Dependencies, get_blast_radius, get_map}
use mcp_coordinator.Dependencies.Radius.{Depends, blast_radius_exact}
use mcp_coordinator.Files.{
  FileActivity, agents_at, get_file_to_agents_index, check_file_conflict, is_recent_edit,
}
use mcp_coordinator.Files.Index.{index_exact, index_agrees}
use mcp_coordinator.Files.Working.{WorkingFile}
use mcp_coordinator.Claims.{handle_claim_task, success}
use mcp_coordinator.Conflicts.{DetectParams, Sources, detect}
use mcp_coordinator.Conflicts.Verdict.{is_error, collides, errors_exact, error_refused}
use mcp_coordinator.Clock.{to_iso}
use mcp_coordinator.Store.{Agent, Thread, resolved, get_thread}
use mcp_coordinator.Workflow.{Review, run_common_announce_flow}
use mcp_coordinator.Workflow.Company.{IsConcerned}
use mcp_coordinator.Workflow.Outcome.{IsAlone, flow_exact}
use mcp_coordinator.Agents.{is_agent, heartbeat}
use mcp_coordinator.Agents.Presence.{is_present, present-heartbeat}
use mcp_coordinator.Impact.{
  AnnounceParams, Tables, score_agent, all_active, recent_index, in_flight_index,
}
use mcp_coordinator.Impact.Layers.{concerned_exact, announces_same, touches}
use mcp_coordinator.Impact.Weights.{score_range}
use mcp_coordinator.Examples.Fixtures.{agent, free_thread, env_at_noon, noon, rivals}

abbrev on : List String → Dependencies
on deps = record { depends_on = deps; exports = "run" ∷ []; owners = "alice" ∷ [] }

-- `web` depends on `api`, which depends on `core`.
abbrev chain : List ModuleInfo
chain =
    record {
      org_id = "acme";
      module_id = "api";
      depends_on = "core" ∷ [];
      exports = [];
      owners = [];
    }
    ∷ record {
      org_id = "acme";
      module_id = "web";
      depends_on = "api" ∷ [];
      exports = [];
      owners = [];
    }
    ∷ []

-- The module `web`.
abbrev web : String
web = "web"

web-ne-core : web ≢ "core"
web-ne-core e = absurd (cc ((eq_iff web "core").1 e))

blast_radius_exact_example :
    Memᴰ "web" (
      (get_blast_radius "acme" "core" chain).direct_dependents
      ++ (get_blast_radius "acme" "core" chain).indirect_dependents)
    ↔ Depends (get_map "acme" chain) "core" "web"
blast_radius_exact_example = blast_radius_exact "acme" "core" chain web web-ne-core

abbrev edits : List FileActivity
edits =
    record {
      org_id = "acme";
      session_id = "s";
      agent_id = "bob";
      agent_name = none;
      tool_name = "Edit";
      file_path = "a.ts";
      in_module = "";
      content_hash = none;
      symbols_touched = none;
      created_at = noon;
    }
    ∷ []

index_exact_example :
    includes
      (agents_at "a.ts"
        (get_file_to_agents_index 1728043260000 "acme" ("a.ts" ∷ []) "alice" 60 edits))
      "bob"
    ≡ any
        (λ row.
          is_recent_edit 1728043260000 "acme" ("a.ts" ∷ []) "alice" 60 row
          && (row.file_path == "a.ts" && row.agent_id == "bob"))
        edits
index_exact_example = index_exact 1728043260000 "acme" ("a.ts" ∷ []) "alice" 60 edits "a.ts" "bob"

index_agrees_example :
    includes
      (agents_at "a.ts"
        (get_file_to_agents_index 1728043260000 "acme" ("a.ts" ∷ []) "alice" 60 edits))
      "bob"
    ≡ includes (check_file_conflict 1728043260000 "acme" "a.ts" "alice" 60 edits) "bob"
index_agrees_example =
    index_agrees 1728043260000 "acme" ("a.ts" ∷ []) "alice" 60 edits "a.ts" "bob" refl

abbrev working : List WorkingFile
working =
    record {
      org_id = "acme";
      agent_id = "bob";
      file_path = "a.ts";
      started_at = 0;
      last_activity_at = 0;
      claim_until = 60;
    }
    ∷ []

abbrev announced : DetectParams
announced = record {
  org_id = "acme";
  agent_id = "alice";
  target_modules = "src/api" ∷ [];
  target_files = "src/api/user.ts" ∷ [];
  run_id = none;
}

abbrev known : Sources
known = record { db = rivals; modules = chain; edits = edits }

errors_exact_example :
    any is_error (detect env_at_noon announced known) ≡ any (collides announced) rivals.threads
errors_exact_example = errors_exact env_at_noon announced known

reported : any is_error (detect env_at_noon announced known) ≡ true
reported = errors_exact env_at_noon announced known

error_refused_example : (handle_claim_task env_at_noon "acme" "t-1" "alice" rivals).0 ≢ success
error_refused_example =
    error_refused env_at_noon env_at_noon "t-1" announced known ((refl, tt), (tt, tt)) refl refl
      (λ f h. h) reported

abbrev tables : Tables
tables = record { ttl = 900; db = rivals; edits = edits; working = working; cochange = [] }

abbrev planned : AnnounceParams
planned = record {
  org_id = "acme";
  agent_id = "alice";
  target_modules = "src/api" ∷ [];
  target_files = "src/api/user.ts" ∷ [];
  depends_on_files = none;
  target_symbols = none;
}

concerned_exact_example :
    leb 90 (score_agent env_at_noon planned tables (agent "bob")).score
    ≡ any (announces_same planned "bob") (all_active env_at_noon planned rivals)
      || any
          (touches
            (recent_index env_at_noon planned tables)
            (in_flight_index env_at_noon planned tables)
            "bob")
          planned.target_files
concerned_exact_example = concerned_exact env_at_noon planned tables (agent "bob")

score_range_example :
    ((score_agent env_at_noon planned tables (agent "bob")).score ≤ 100)
    × (eq_ℕ (score_agent env_at_noon planned tables (agent "bob")).score 0
        ≡ is_empty (score_agent env_at_noon planned tables (agent "bob")).reasons)
score_range_example = score_range env_at_noon planned tables (agent "bob")

present-heartbeat_example :
    is_present
      (env_at_noon.now + 60000)
      900
      "acme"
      "bob"
      (heartbeat env_at_noon "acme" "bob" rivals)
    ≡ true
present-heartbeat_example =
    present-heartbeat env_at_noon (env_at_noon.now + 60000) 900 "acme" "bob" rivals refl
      (omega arith)

only_bob : (b : Agent) → Memᴰ b rivals.agents → is_agent "acme" "bob" b ≡ true → b ≡ agent "bob"
only_bob b (head e) h = absurd (cc (ap (is_agent "acme" "bob") e, h))
only_bob b (tail (head e)) h = e
only_bob b (tail (tail m)) h = elim m [ ]

abbrev review : Review
review = record {
  params = planned;
  keep_open = false;
  ttl = 900;
  edits = edits;
  working = working;
  cochange = [];
}

flow_exact_example :
    let alive = heartbeat env_at_noon "acme" "alice" rivals in
    (u : Thread) × (get_thread "acme" "t-1"
        (run_common_announce_flow env_at_noon review "t-1" rivals)
      ≡ some u)
    × ((a : String) → Memᴰ a u.expected_respondents ↔ IsConcerned env_at_noon review alive a)
    × ((IsAlone env_at_noon review alive free_thread
          × (u ≡ record free_thread {
            expected_respondents = [];
            status = resolved;
            resolved_at = some (to_iso env_at_noon.now);
          }))
        ⊎ ((¬ IsAlone env_at_noon review alive free_thread)
            × (u ≡ record free_thread { expected_respondents = u.expected_respondents })))
flow_exact_example = flow_exact env_at_noon review "t-1" rivals refl
