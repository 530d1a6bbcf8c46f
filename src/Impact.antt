-- ===== src/Impact.antt =====
-- src/impact-scorer.ts: ImpactScorer.score and categorize. Wherever the source raises maxScore it
-- pushes a reason too, in one place for each layer; such a pair is a Hit, and a Reason holds what
-- its text shows. A scorer without a consultation or a tracker is one whose tables are empty.
pub mod Layers
pub mod Weights
use Prim.Native.String.{◌++◌ as text_append}
use mcp_coordinator.Prelude.{
  ℕ, ◌+◌, ◌*◌, ◌/◌, max, String, ◌≡◌, Bool, true, false, not, ◌&&◌, ◌||◌, List, [], ◌∷◌, ◌++◌, map,
  Option, none, some, ◌==◌, any, flat_map, includes, is_empty, leb, ltb, select, if◌then◌else◌,
}
use mcp_coordinator.Clock.{minutes_ago, text_lt}
use mcp_coordinator.Store.{Env, Db, Agent, Thread, opened, resolving, resolved}
use mcp_coordinator.Agents.{list_online}
use mcp_coordinator.Consultation.Opening.{modules_overlap}
use mcp_coordinator.Consultation.Queries.{Filters, no_filters, list_threads}
use mcp_coordinator.Files.{FileActivity, AgentIndex, agents_at, get_file_to_agents_index}
use mcp_coordinator.Files.Working.{WorkingFile, get_index}

pub data Reason : Type 0 where
  announced_same_file modifies_my_dependency they_depend_on_my_target :
      (files : List String) (thread : String) → Reason
  disjoint_symbols : (file : String) (mine theirs : List String) → Reason
  same_file_recent same_file_in_flight depends_on : (file : String) → Reason
  module_overlap : (modules : List String) → Reason
  co_change : (file partner : String) (count total : ℕ) → Reason

pub record Hit : Type 0 where
  pub weight : ℕ
  pub reason : Reason

pub record ImpactScore : Type 0 where
  pub agent_id : String
  pub agent_name : String
  pub score : ℕ
  pub reasons : List Reason

pub record CategorizedImpact : Type 0 where
  pub concerned : List ImpactScore
  pub gray_zone : List ImpactScore
  pub pass : List ImpactScore

pub record AnnounceParams : Type 0 where
  pub org_id : String
  pub agent_id : String
  pub target_modules : List String
  pub target_files : List String
  pub depends_on_files : Option (List String)
  pub target_symbols : Option (List String)

pub record CoChange : Type 0 where
  pub org_id : String
  pub file_a : String
  pub file_b : String
  pub count : ℕ
  pub total_commits : ℕ

-- What the scorer reads; `ttl` is the registry's.
pub record Tables : Type 0 where
  pub ttl : ℕ
  pub db : Db
  pub edits : List FileActivity
  pub working : List WorkingFile
  pub cochange : List CoChange

abbrev pub layer_0_window_minutes : ℕ
layer_0_window_minutes = 30

abbrev pub file_activity_window_minutes : ℕ
file_activity_window_minutes = 60

-- params.depends_on_files || []
abbrev pub listed_or_empty : Option (List String) → List String
listed_or_empty none = []
listed_or_empty (some files) = files

abbrev pub hit_if : Bool → ℕ → Reason → List Hit
hit_if b weight reason = if b then record { weight = weight; reason = reason } ∷ [] else []

abbrev pub hit_on : List String → ℕ → Reason → List Hit
hit_on overlap weight reason = hit_if (not (is_empty overlap)) weight reason

unfoldable pub all_active : Env → AnnounceParams → Db → List Thread
all_active env p db =
    list_threads env.now p.org_id (record no_filters { status = some opened }) db
    ++ list_threads env.now p.org_id (record no_filters { status = some resolving }) db
    ++ list_threads env.now p.org_id
        (record no_filters { status = some resolved; since_minutes = some layer_0_window_minutes })
        db

-- 0a, 0b and 0c for one thread of the agent
unfoldable pub thread_hits : AnnounceParams → Thread → List Hit
thread_hits p t =
    let same = select (includes t.target_files) p.target_files in
    let needed = select (includes t.target_files) (listed_or_empty p.depends_on_files) in
    let needing = select (includes t.depends_on_files) p.target_files in
    hit_on same 100 (announced_same_file same t.id)
    ++ hit_on needed 80 (modifies_my_dependency needed t.id)
    ++ hit_on needing 80 (they_depend_on_my_target needing t.id)

unfoldable pub layer_0 : AnnounceParams → List Thread → String → List Hit
unfolding thread_hits
layer_0 p active agent =
    flat_map (thread_hits p) (select (λ (t : Thread). t.initiator_id == agent) active)

-- `${file}|${agent}`
abbrev pub pair_key : String → String → String
pair_key file agent = text_append file (text_append "|" agent)

-- The last recorded symbols under the key, among the target files.
unfoldable pub symbols_touched :
    String → List String → String → List FileActivity → Option (List String)
symbols_touched org files key [] = none
symbols_touched org files key (row ∷ rows) =
    let later = symbols_touched org files key rows in
    elim later [
      | some symbols ↦ some symbols
      | none ↦
          if row.org_id == org
            && includes files row.file_path
            && pair_key row.file_path row.agent_id == key
          then row.symbols_touched
          else none
    ]

-- The reason for a target file that the agent edited lately.
unfoldable pub recent_reason : AnnounceParams → List FileActivity → String → String → Reason
unfolding symbols_touched
recent_reason p edits agent file =
    let mine = listed_or_empty p.target_symbols in
    let theirs =
      listed_or_empty (symbols_touched p.org_id p.target_files (pair_key file agent) edits) in
    if not (is_empty mine) && not (is_empty theirs) && not (any (includes theirs) mine)
    then disjoint_symbols file mine theirs
    else same_file_recent file

abbrev pub file_hits :
    AnnounceParams → List FileActivity → AgentIndex → AgentIndex → String → String → List Hit
file_hits p edits recent in_flight agent file =
    hit_if (includes (agents_at file recent) agent) 100 (recent_reason p edits agent file)
    ++ hit_if (includes (agents_at file in_flight) agent) 100 (same_file_in_flight file)

abbrev pub layer_1 :
    AnnounceParams → List FileActivity → AgentIndex → AgentIndex → String → List Hit
layer_1 p edits recent in_flight agent =
    flat_map (file_hits p edits recent in_flight agent) p.target_files

abbrev pub layer_2 : AnnounceParams → AgentIndex → String → List Hit
layer_2 p recent agent =
    flat_map (λ file. hit_if (includes (agents_at file recent) agent) 80 (depends_on file))
      (listed_or_empty p.depends_on_files)

abbrev pub layer_3 : AnnounceParams → Agent → List Hit
layer_3 p a =
    let overlapping = select (λ am. any (λ tm. modules_overlap am tm) p.target_modules) a.modules in
    hit_on overlapping 30 (module_overlap overlapping)

-- ratio > 0.5 is 60, ratio > 0.2 is 40
unfoldable pub layer_4_score : ℕ → ℕ → ℕ
layer_4_score count total =
    if ltb (max total 1) (2 * count) then 60 else if ltb (max total 1) (5 * count) then 40 else 0

abbrev pub partner_of : String → CoChange → String
partner_of file row = if row.file_a == file then row.file_b else row.file_a

abbrev pub is_candidate : String → String → CoChange → Bool
is_candidate org file row =
    row.org_id == org
    && (row.file_a == file || row.file_b == file)
    && ltb 0 (layer_4_score row.count row.total_commits)

unfoldable pub layer_4_candidates : String → String → List CoChange → List CoChange
unfolding layer_4_score
layer_4_candidates org file rows = select (is_candidate org file) rows

-- The files that the activity is asked for.
abbrev pub partners : AnnounceParams → List CoChange → List String
partners p rows =
    flat_map (λ file. map (partner_of file) (layer_4_candidates p.org_id file rows)) p.target_files

-- layer4PartnerActivity.has(`${partner}|${agent}`)
unfoldable pub touched_partner :
    Env → AnnounceParams → List CoChange → List FileActivity → String → String → Bool
unfolding layer_4_candidates
touched_partner env p rows edits partner agent =
    any
      (λ (row : FileActivity).
        row.org_id == p.org_id
        && includes (partners p rows) row.file_path
        && text_lt (minutes_ago env.now 60) row.created_at
        && pair_key row.file_path row.agent_id == pair_key partner agent)
      edits

abbrev pub co_change_hit : Env → AnnounceParams → Tables → String → String → CoChange → List Hit
co_change_hit env p s agent file row =
    hit_if (touched_partner env p s.cochange s.edits (partner_of file row) agent)
      (layer_4_score row.count row.total_commits)
      (co_change file (partner_of file row) row.count row.total_commits)

unfoldable pub layer_4 : Env → AnnounceParams → Tables → String → List Hit
unfolding touched_partner layer_4_candidates
layer_4 env p s agent =
    flat_map
      (λ file.
        flat_map (co_change_hit env p s agent file) (layer_4_candidates p.org_id file s.cochange))
      p.target_files

abbrev pub recent_index : Env → AnnounceParams → Tables → AgentIndex
recent_index env p s =
    get_file_to_agents_index env.now p.org_id (p.target_files ++ listed_or_empty p.depends_on_files)
      p.agent_id file_activity_window_minutes s.edits

abbrev pub in_flight_index : Env → AnnounceParams → Tables → AgentIndex
in_flight_index env p s =
    get_index (env.now / 1000) p.org_id (p.target_files ++ listed_or_empty p.depends_on_files)
      p.agent_id s.working

-- The hits of one agent, in the order of the pushes.
unfoldable pub agent_hits : Env → AnnounceParams → Tables → Agent → List Hit
unfolding all_active layer_0 recent_reason layer_4
agent_hits env p s a =
    let recent = recent_index env p s in
    layer_0 p (all_active env p s.db) a.id
    ++ layer_1 p s.edits recent (in_flight_index env p s) a.id
    ++ layer_2 p recent a.id
    ++ layer_3 p a
    ++ layer_4 env p s a.id

-- maxScore, from 0
abbrev pub top : List Hit → ℕ
top [] = 0
top (h ∷ hits) = max h.weight (top hits)

unfoldable pub score_agent : Env → AnnounceParams → Tables → Agent → ImpactScore
unfolding agent_hits
score_agent env p s a =
    let hits = agent_hits env p s a in
    record {
      agent_id = a.id;
      agent_name = a.name;
      score = top hits;
      reasons = map (λ (h : Hit). h.reason) hits;
    }

unfoldable pub score : Env → AnnounceParams → Tables → List ImpactScore
unfolding score_agent
score env p s =
    map (score_agent env p s)
      (select (λ (a : Agent). not (a.id == p.agent_id)) (list_online env.now s.ttl p.org_id s.db))

unfoldable pub categorize : Env → AnnounceParams → Tables → CategorizedImpact
unfolding score
categorize env p s =
    let scores = score env p s in
    record {
      concerned = select (λ (x : ImpactScore). leb 90 x.score) scores;
      gray_zone = select (λ (x : ImpactScore). leb 30 x.score && ltb x.score 90) scores;
      pass = select (λ (x : ImpactScore). ltb x.score 30) scores;
    }
