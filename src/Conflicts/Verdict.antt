-- ===== src/Conflicts/Verdict.antt =====
-- The verdict `error` of detect, and what handleClaimTask does.
use mcp_coordinator.Prelude.{
  ℕ, ◌≡◌, ◌≢◌, refl, sym, ap, ◌∙◌, inl, inr, String, Bool, true, false, not, ◌&&◌, List, [], ◌∷◌,
  ◌++◌, ◌==◌, eq_iff, eq_refl, any, any-append, any-select, any-flat_map, any_none, any_same,
  any_witness, any_of_Mem, includes, is_empty, or_null, select, arith, Bool-cases, Memᴰ, some,
  flat_map,
}
use mcp_coordinator.Table.{find_row-Mem}
use mcp_coordinator.Store.{Env, Db, Thread, opened, resolving, resolved, keyed, get_thread}
use mcp_coordinator.Consultation.Queries.{Filters, list_threads, matches, under, null_or}
use mcp_coordinator.Claims.{shares_file, handle_claim_task, success}
use mcp_coordinator.Claims.Grant.{claim_exact}
use mcp_coordinator.Lifecycle.Keys.{IsKeyed, IsKeyed-unique}
use mcp_coordinator.Dependencies.{ModuleInfo}
use mcp_coordinator.Files.{agents_at, get_file_to_agents_index}
use mcp_coordinator.Conflicts.{
  ConflictReport, error, DetectParams, Sources, detect, active_threads, thread_conflicts,
  module_conflicts, file_conflicts, chain_conflicts, on_dependency, on_dependent, module_deps,
  module_dependents, held_by_another, hot_files, hot_agents, hot_file, is_file_overlap_of,
  with_status, resolved_thread_conflict_window_minutes,
}

abbrev pub is_error : ConflictReport → Bool
is_error c = elim c.severity [ error ↦ true | _ ↦ false ]

-- A thread of the announcer's organisation and run, started by another agent, open, held by
-- another agent, with a file in common.
abbrev pub collides : DetectParams → Thread → Bool
collides p t =
    t.org_id == p.org_id
    && under (or_null p.run_id) (null_or t.run_id)
    && not (t.initiator_id == p.agent_id)
    && held_by_another p t
    && any (includes t.target_files) p.target_files

hot_agents_lem :
    (file : String) (others : List String) (cs : List ConflictReport)
    → any is_error (hot_agents file others cs) ≡ any is_error cs
unfolding hot_agents
hot_agents_lem file [] cs = refl
hot_agents_lem file (other ∷ others) cs =
    hot_agents_lem file others _ ∙ elim (Bool-cases (any (is_file_overlap_of other) cs)) [
      | inl e ↦ rw e
      | inr e ↦ rw e (any-append is_error cs (hot_file file other ∷ []) ∙ ground arith)
    ]

hot_files_lem :
    (agents : String → List String) (files : List String) (cs : List ConflictReport)
    → any is_error (hot_files agents files cs) ≡ any is_error cs
unfolding hot_files
hot_files_lem agents [] cs = refl
hot_files_lem agents (file ∷ files) cs =
    hot_files_lem agents files _ ∙ hot_agents_lem file (agents file) cs

is_empty-select : (q : String → Bool) (xs : List String) → is_empty (select q xs) ≡ not (any q xs)
is_empty-select q [] = refl
is_empty-select q (x ∷ xs) = ground (arith, is_empty-select q xs)

module_conflicts_lem : (p : DetectParams) (t : Thread) → any is_error (module_conflicts p t) ≡ false
unfolding module_conflicts
module_conflicts_lem p t = ground arith

file_conflicts_lem :
    (p : DetectParams) (t : Thread)
    → any is_error (file_conflicts p t)
      ≡ held_by_another p t && any (includes t.target_files) p.target_files
unfolding file_conflicts
file_conflicts_lem p t = ground (arith, is_empty-select (includes t.target_files) p.target_files)

no_error :
    (f : String → List ConflictReport) (xs : List String)
    → ((x : String) → any is_error (f x) ≡ false)
    → any is_error (flat_map f xs) ≡ false
no_error f xs h = any-flat_map is_error f xs ∙ any_none (λ x. any is_error (f x)) xs h

on_dependency_lem :
    (t : Thread) (target dep : String) → any is_error (on_dependency t target dep) ≡ false
on_dependency_lem t target dep = ground arith

on_dependent_lem :
    (t : Thread) (target dep : String) → any is_error (on_dependent t target dep) ≡ false
on_dependent_lem t target dep = ground arith

chain_conflicts_lem :
    (p : DetectParams) (modules : List ModuleInfo) (t : Thread)
    → any is_error (chain_conflicts p modules t) ≡ false
unfolding chain_conflicts
chain_conflicts_lem p modules t = no_error _ p.target_modules λ target.
    let deps = module_deps p.org_id modules target in
    let dependents = module_dependents p.org_id modules target in
    any-append is_error (flat_map (on_dependency t target) deps)
      (flat_map (on_dependent t target) dependents)
    ∙ rw (
      no_error (on_dependency t target) deps (on_dependency_lem t target),
      no_error (on_dependent t target) dependents (on_dependent_lem t target),
    )

-- The threads for which the loop reports an error.
abbrev pub errs : DetectParams → Thread → Bool
errs p t =
    not (t.initiator_id == p.agent_id)
    && held_by_another p t
    && any (includes t.target_files) p.target_files

thread_conflicts_lem :
    (p : DetectParams) (modules : List ModuleInfo) (t : Thread)
    → any is_error (thread_conflicts p modules t) ≡ errs p t
unfolding thread_conflicts
thread_conflicts_lem p modules t = elim (Bool-cases (t.initiator_id == p.agent_id)) [
  | inl own ↦ rw own
  | inr foreign ↦ rw foreign (
      any-append is_error (module_conflicts p t ++ file_conflicts p t) (chain_conflicts p modules t)
      ∙ rw
          (
            chain_conflicts_lem p modules t,
            any-append is_error (module_conflicts p t) (file_conflicts p t),
            module_conflicts_lem p t,
            file_conflicts_lem p t,
          )
          (ground arith))
]

listed :
    (env : Env) (p : DetectParams) (f : Filters) (db : Db)
    → any (errs p) (list_threads env.now p.org_id f db)
      ≡ any (λ t. matches env.now p.org_id f t && errs p t) db.threads
unfolding list_threads
listed env p f db = any-select (errs p) (matches env.now p.org_id f) db.threads

open_leg :
    (env : Env) (p : DetectParams) (t : Thread)
    → (matches env.now p.org_id (with_status p.run_id opened) t && errs p t) ≡ collides p t
unfolding matches
open_leg env p t = ground arith

resolving_leg :
    (env : Env) (p : DetectParams) (t : Thread)
    → (matches env.now p.org_id (with_status p.run_id resolving) t && errs p t) ≡ false
unfolding matches
resolving_leg env p t = ground arith

resolved_leg :
    (env : Env) (p : DetectParams) (minutes : ℕ) (t : Thread)
    → (matches env.now p.org_id
          (record (with_status p.run_id resolved) { since_minutes = some minutes })
          t
        && errs p t)
      ≡ false
unfolding matches
resolved_leg env p minutes t = ground arith

active_lem :
    (env : Env) (p : DetectParams) (db : Db)
    → any (errs p) (active_threads env p db) ≡ any (collides p) db.threads
unfolding active_threads
active_lem env p db =
    let open_threads = list_threads env.now p.org_id (with_status p.run_id opened) db in
    let pending = list_threads env.now p.org_id (with_status p.run_id resolving) db in
    let recent : Filters = record (with_status p.run_id resolved) {
      since_minutes = some resolved_thread_conflict_window_minutes;
    } in
    any-append (errs p) (open_threads ++ pending) (list_threads env.now p.org_id recent db)
    ∙ rw
        (
          any-append (errs p) open_threads pending,
          listed env p (with_status p.run_id opened) db ∙ any_same _ _ db.threads (open_leg env p),
          listed env p (with_status p.run_id resolving) db
              ∙ any_none _ db.threads (resolving_leg env p),
          listed env p recent db
              ∙ any_none _ db.threads (resolved_leg env p resolved_thread_conflict_window_minutes),
        )
        (ground arith)

-- detect reports an error exactly where a thread of the organisation, of the announced run or of
-- none, that another agent has started is open, held by another agent, and names one of the
-- announced files. (Without an announced run, threads of all runs count.)
pub errors_exact :
    (env : Env) (p : DetectParams) (s : Sources)
    → any is_error (detect env p s) ≡ any (collides p) s.db.threads
unfolding detect
errors_exact env p s =
    hot_files_lem
      (λ file.
        agents_at file
          (get_file_to_agents_index env.now p.org_id p.target_files p.agent_id 60 s.edits))
      p.target_files (flat_map (thread_conflicts p s.modules) (active_threads env p s.db))
    ∙ any-flat_map is_error (thread_conflicts p s.modules) (active_threads env p s.db)
    ∙ any_same _ (errs p) (active_threads env p s.db) (thread_conflicts_lem p s.modules)
    ∙ active_lem env p s.db

shares-wider :
    (p : DetectParams) (t o : Thread)
    → ((f : String) → includes p.target_files f ≡ true → includes t.target_files f ≡ true)
    → any (includes o.target_files) p.target_files ≡ true
    → shares_file t o ≡ true
shares-wider p t o wider h =
    let (f, m, e) = any_witness (includes o.target_files) p.target_files h in
    let asked = any_of_Mem (λ g. g == f) m (eq_refl f) in
    let (g, n, e') = any_witness (λ g. g == f) t.target_files (wider f asked) in
    any_of_Mem (includes o.target_files) n (ap (includes o.target_files) ((eq_iff g f).0 e') ∙ e)

apart :
    (p : DetectParams) (db : Db) (t o : Thread)
    → IsKeyed db.threads
    → Memᴰ t db.threads
    → Memᴰ o db.threads
    → t.initiator_id ≡ p.agent_id
    → (o.initiator_id == p.agent_id) ≡ false
    → (o.id == t.id) ≡ false
apart p db t o k n m own foreign = elim (Bool-cases (o.id == t.id)) [
  | inl e ↦
      let one : o ≡ t = IsKeyed-unique k m n ((eq_iff o.id t.id).0 e) in
      let same = ap (λ (x : Thread). x.initiator_id) one ∙ own in
      absurd (cc ((eq_iff o.initiator_id p.agent_id).1 same, foreign))
  | inr e ↦ e
]

-- The verdict agrees with the claim: where the ids are distinct and detect reports an error for an
-- announcement, the claim by the announcer of a thread that it has started on these files, or on
-- more, is refused.
pub error_refused :
    (env later : Env) (id : String) (p : DetectParams) (s : Sources) {t : Thread}
    → IsKeyed s.db.threads
    → get_thread p.org_id id s.db ≡ some t
    → t.initiator_id ≡ p.agent_id
    → ((f : String) → includes p.target_files f ≡ true → includes t.target_files f ≡ true)
    → any is_error (detect env p s) ≡ true
    → (handle_claim_task later p.org_id id p.agent_id s.db).0 ≢ success
error_refused env later id p s {t} k found own wider h granted =
    let (o, m, e) = any_witness (collides p) s.db.threads (sym (errors_exact env p s) ∙ h) in
    let (n, key) = find_row-Mem (keyed p.org_id id) s.db.threads found in
    let clear = (claim_exact later p.org_id id p.agent_id s.db k found).0 granted in
    clear.unblocked (record {
      holder = o;
      listed = m;
      same_org =
          (eq_iff o.org_id p.org_id).0 (ground arith)
          ∙ sym ((eq_iff t.org_id p.org_id).0 (ground arith));
      other = apart p s.db t o k n m own (ground arith);
      is_open = ground arith;
      held = ground arith;
      shared = shares-wider p t o wider (ground arith);
    })
