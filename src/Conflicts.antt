-- ===== src/Conflicts.antt =====
-- src/conflict-detector.ts: ConflictDetector.detect, over the threads, the dependency map and the
-- recent edits.
pub mod Verdict
use Prim.Native.String.{◌++◌ as text_append}
use mcp_coordinator.Prelude.{
  ℕ, String, ◌≡◌, Bool, true, false, not, ◌&&◌, List, [], ◌∷◌, ◌++◌, Option, none, some, ◌==◌, any,
  differs, flat_map, includes, is_empty, select, if◌then◌else◌,
}
use mcp_coordinator.Store.{Env, Db, Thread, ThreadStatus, opened, resolving, resolved, is_opened}
use mcp_coordinator.Consultation.Queries.{Filters, no_filters, list_threads}
use mcp_coordinator.Dependencies.{ModuleInfo, get_module_info, get_blast_radius}
use mcp_coordinator.Files.{FileActivity, agents_at, get_file_to_agents_index}

pub data ConflictType : Type 0 where
  module_overlap api_contract file_overlap dependency_chain : ConflictType

pub data Severity : Type 0 where
  error warning info : Severity

pub record ConflictReport : Type 0 where
  pub type : ConflictType
  pub severity : Severity
  pub agent_id : String
  pub agent_name : String
  pub description : String
  pub details : String

pub record DetectParams : Type 0 where
  pub org_id : String
  pub agent_id : String
  pub target_modules : List String
  pub target_files : List String
  pub run_id : Option String

-- What detect reads.
pub record Sources : Type 0 where
  pub db : Db
  pub modules : List ModuleInfo
  pub edits : List FileActivity

-- xs.join(", ")
abbrev pub joined : List String → String
joined [] = ""
joined (x ∷ []) = x
joined (x ∷ y ∷ xs) = text_append x (text_append ", " (joined (y ∷ xs)))

abbrev pub resolved_thread_conflict_window_minutes : ℕ
resolved_thread_conflict_window_minutes = 30

abbrev pub with_status : Option String → ThreadStatus → Filters
with_status run s = record no_filters { status = some s; run_id = run }

unfoldable pub active_threads : Env → DetectParams → Db → List Thread
active_threads env p db =
    list_threads env.now p.org_id (with_status p.run_id opened) db
    ++ list_threads env.now p.org_id (with_status p.run_id resolving) db
    ++ list_threads env.now p.org_id
        (record (with_status p.run_id resolved) {
          since_minutes = some resolved_thread_conflict_window_minutes;
        })
        db

-- moduleDeps.get(targetModule) ?? []
unfoldable pub module_deps : String → List ModuleInfo → String → List String
module_deps org modules target = elim (get_module_info org target modules) [
  | none ↦ []
  | some row ↦ row.depends_on
]

-- moduleDependents.get(targetModule) ?? []
unfoldable pub module_dependents : String → List ModuleInfo → String → List String
module_dependents org modules target = elim (get_module_info org target modules) [
  | none ↦ []
  | some row ↦
      let radius = get_blast_radius org target modules in
      radius.direct_dependents ++ radius.indirect_dependents
]

-- The thread's initiator stands for the agent, its subject for the name.
abbrev pub report : Thread → ConflictType → Severity → String → String → ConflictReport
report t type severity description details = record {
  type = type;
  severity = severity;
  agent_id = t.initiator_id;
  agent_name = t.subject;
  description = description;
  details = details;
}

-- Thread "…" (…)
abbrev pub by_initiator : Thread → String → String
by_initiator t rest =
    text_append "Thread \"" (
      text_append t.subject
        (text_append "\" (" (text_append t.initiator_id (text_append ")" rest))))

unfoldable pub module_conflicts : DetectParams → Thread → List ConflictReport
module_conflicts p t =
    let overlap = select (includes t.target_modules) p.target_modules in
    if is_empty overlap
    then []
    else report t module_overlap warning (text_append "Module overlap on: " (joined overlap))
        (by_initiator t " targets same modules")
      ∷ []

abbrev pub held_by_another : DetectParams → Thread → Bool
held_by_another p t = is_opened t && differs t.claimed_by p.agent_id

abbrev pub claimant : Thread → String
claimant t = elim t.claimed_by [ none ↦ "null" | some agent ↦ agent ]

abbrev pub file_details : DetectParams → Thread → String
file_details p t =
    if held_by_another p t
    then text_append "Thread \"" (
        text_append t.subject (
          text_append "\" is held by " (
            text_append (claimant t)
              " and targets the same files. claim_task would refuse this overlap.")))
    else by_initiator t " targets same files"

unfoldable pub file_conflicts : DetectParams → Thread → List ConflictReport
file_conflicts p t =
    let overlap = select (includes t.target_files) p.target_files in
    if is_empty overlap
    then []
    else report t file_overlap (if held_by_another p t then error else warning)
        (text_append "File overlap on: " (joined overlap)) (file_details p t)
      ∷ []

abbrev pub on_dependency : Thread → String → String → List ConflictReport
on_dependency t target dep =
    if includes t.target_modules dep
    then report t dependency_chain info
        (text_append target
          (text_append " depends on " (text_append dep " which is being modified")))
        (text_append "Thread \"" (
          text_append t.subject (
            text_append "\" modifies "
              (text_append dep (text_append ", a dependency of " target)))))
      ∷ []
    else []

abbrev pub on_dependent : Thread → String → String → List ConflictReport
on_dependent t target dependent =
    if includes t.target_modules dependent
    then report t dependency_chain info
        (text_append dependent
          (text_append " depends on " (text_append target " which you are modifying")))
        (text_append "Thread \"" (
          text_append t.subject (
            text_append "\" works on "
              (text_append dependent (text_append ", which depends on " target)))))
      ∷ []
    else []

unfoldable pub chain_conflicts : DetectParams → List ModuleInfo → Thread → List ConflictReport
chain_conflicts p modules t =
    flat_map
      (λ target.
        flat_map (on_dependency t target) (module_deps p.org_id modules target)
        ++ flat_map (on_dependent t target) (module_dependents p.org_id modules target))
      p.target_modules

-- The body of the loop over the threads.
unfoldable pub thread_conflicts : DetectParams → List ModuleInfo → Thread → List ConflictReport
unfolding module_conflicts file_conflicts chain_conflicts
thread_conflicts p modules t =
    if t.initiator_id == p.agent_id
    then []
    else module_conflicts p t ++ file_conflicts p t ++ chain_conflicts p modules t

abbrev pub is_file_overlap_of : String → ConflictReport → Bool
is_file_overlap_of agent c = c.agent_id == agent && elim c.type [ file_overlap ↦ true | _ ↦ false ]

abbrev pub hot_file : String → String → ConflictReport
hot_file file other = record {
  type = file_overlap;
  severity = warning;
  agent_id = other;
  agent_name = other;
  description =
      text_append "Hot file: " (text_append file (text_append " recently edited by " other));
  details =
      text_append "File activity shows "
        (text_append file (text_append " was recently modified by " other));
}

unfoldable pub hot_agents : String → List String → List ConflictReport → List ConflictReport
hot_agents file [] conflicts = conflicts
hot_agents file (other ∷ others) conflicts = hot_agents file others (
    if any (is_file_overlap_of other) conflicts
    then conflicts
    else conflicts ++ hot_file file other ∷ [])

unfoldable pub hot_files :
    (String → List String) → List String → List ConflictReport → List ConflictReport
unfolding hot_agents
hot_files agents [] conflicts = conflicts
hot_files agents (file ∷ files) conflicts =
    hot_files agents files (hot_agents file (agents file) conflicts)

unfoldable pub detect : Env → DetectParams → Sources → List ConflictReport
unfolding active_threads thread_conflicts hot_files
detect env p s =
    let index = get_file_to_agents_index env.now p.org_id p.target_files p.agent_id 60 s.edits in
    hot_files (λ file. agents_at file index) p.target_files
      (flat_map (thread_conflicts p s.modules) (active_threads env p s.db))
