-- ===== src/Workflow/Outcome.antt =====
-- What runCommonAnnounceFlow does to the thread.
use mcp_coordinator.Prelude.{
  ◌≡◌, ◌↔◌, ◌⊎◌, true, false, Memᴰ, [], refl, ap, ◌∙◌, inl, inr, String, Bool, not, ◌&&◌, List,
  none, some, is_empty, arith, Bool-cases, Option-cases, if◌then◌else◌,
}
use mcp_coordinator.Clock.{to_iso}
use mcp_coordinator.Table.{find_row, find_row-Mem, find_row-update_where}
use mcp_coordinator.Store.{
  Agent, ThreadStatus, opened, resolving, cancelled, poisoned, Env, Db, Thread, resolved,
  auto_resolved, is_opened, keyed, get_thread, update_thread,
}
use mcp_coordinator.Agents.{heartbeat, list_online}
use mcp_coordinator.Lifecycle.{readdress, resolve}
use mcp_coordinator.Lifecycle.Lives.{
  Lives, within, Lives-same, Lives-refl, Lives-trans, Lives-update, Lives-update_thread,
}
use mcp_coordinator.Lifecycle.Resolution.{threads-emit_resolution}
use mcp_coordinator.Workflow.Company.{
  IsPresent, IsConcerned, empty_or_not, concerned_ids_iff, nobody_else_iff,
}
use mcp_coordinator.Workflow.{
  Review, concerned_ids, override_respondents, nobody_else, resolve_alone, auto_resolve,
  run_common_announce_flow,
}

auto_resolve-Lives :
    (env : Env) (r : Review) (id : String) (ids : List String) (db : Db)
    → Lives (within r.params.org_id) db (auto_resolve env r id ids db)
unfolding auto_resolve resolve_alone
auto_resolve-Lives env r id ids db = elim (Option-cases (get_thread r.params.org_id id db)) [
  | inl e ↦ rw (e, auto_resolve) Lives-refl
  | inr (t, e) ↦
      elim (Bool-cases ((is_empty ids && nobody_else env r db) && is_opened t && not r.keep_open)) [
        | inr h ↦ rw (e, h, auto_resolve) Lives-refl
        | inl h ↦
            rw (e, h, auto_resolve)
              (Lives-trans
                (Lives-update_thread r.params.org_id id db
                  (λ t. record t { status = resolved; resolved_at = some (to_iso env.now) }) t
                  (λ x. refl) e (resolve t.resolution_summary (to_iso env.now) (ground arith) refl))
                (Lives-same (threads-emit_resolution env id auto_resolved none none _)))
      ]
]

pub flow-Lives :
    (env : Env) (r : Review) (id : String) (db : Db)
    → Lives (within r.params.org_id) db (run_common_announce_flow env r id db)
unfolding run_common_announce_flow heartbeat
flow-Lives env r id db =
    let alive = heartbeat env r.params.org_id r.params.agent_id db in
    let ids = concerned_ids env r alive in
    Lives-trans {b = alive} (Lives-same refl) (
      Lives-trans
        (Lives-update alive (keyed r.params.org_id id)
          (λ t. record t { expected_respondents = ids }) (λ x. refl) (λ x h. ground arith)
          (λ k x m h. readdress ids refl))
        (auto_resolve-Lives env r id ids (override_respondents r id ids alive)))

-- Nobody is concerned, nobody else is online, and the open thread is not to be kept open.
abbrev is_alone : Env → Review → Db → Thread → Bool
is_alone env r alive t =
    (is_empty (concerned_ids env r alive) && nobody_else env r alive)
    && is_opened t
    && not r.keep_open

auto_resolve_lem :
    (env : Env) (r : Review) (id : String) (ids : List String) (db : Db) {t : Thread}
    → get_thread r.params.org_id id db ≡ some t
    → get_thread r.params.org_id id (auto_resolve env r id ids db)
      ≡ some (
          if (is_empty ids && nobody_else env r db) && is_opened t && not r.keep_open
          then record t { status = resolved; resolved_at = some (to_iso env.now) }
          else t)
unfolding auto_resolve resolve_alone
auto_resolve_lem env r id ids db {t} found =
    let org = r.params.org_id in
    let (_, key) = find_row-Mem (keyed org id) db.threads found in
    let close : Thread → Thread =
      λ t. record t { status = resolved; resolved_at = some (to_iso env.now) } in
    elim (Bool-cases ((is_empty ids && nobody_else env r db) && is_opened t && not r.keep_open)) [
      | inl h ↦
          rw (found, h, auto_resolve)
            (ap (find_row (keyed org id)) (
                threads-emit_resolution env id auto_resolved none none
                  (update_thread org id close db))
              ∙ find_row-update_where (keyed org id) (keyed org id) close db.threads (λ x. refl)
              ∙ rw (found, key))
      | inr h ↦ rw (found, h, auto_resolve) found
    ]

flow_row :
    (env : Env) (r : Review) (id : String) (db : Db) {t : Thread}
    → get_thread r.params.org_id id db ≡ some t
    → let alive = heartbeat env r.params.org_id r.params.agent_id db in
      let waiting : Thread = record t { expected_respondents = concerned_ids env r alive } in
      get_thread r.params.org_id id (run_common_announce_flow env r id db)
      ≡ some (
          if is_alone env r alive t
          then record waiting { status = resolved; resolved_at = some (to_iso env.now) }
          else waiting)
unfolding run_common_announce_flow heartbeat nobody_else list_online
flow_row env r id db {t} found =
    let org = r.params.org_id in
    let alive = heartbeat env org r.params.agent_id db in
    let ids = concerned_ids env r alive in
    let (_, key) = find_row-Mem (keyed org id) db.threads found in
    let waiting : Thread = record t { expected_respondents = ids } in
    let db' = override_respondents r id ids alive in
    let found' : get_thread org id db' ≡ some waiting =
      find_row-update_where (keyed org id) (keyed org id)
        (λ t. record t { expected_respondents = ids }) db.threads (λ x. refl)
      ∙ rw (found, key) in
    auto_resolve_lem env r id ids db' found'

-- The thread is open and not to be kept open, and whoever is present is its announcer.
pub record IsAlone (env : Env) (r : Review) (db : Db) (t : Thread) : Type 0 where
  pub waits : t.status ≡ opened
  pub settles : r.keep_open ≡ false
  pub nobody : (a : Agent) → Memᴰ a db.agents → IsPresent env r a → a.id ≡ r.params.agent_id

opened_iff : (t : Thread) → (is_opened t ≡ true) ↔ (t.status ≡ opened)
opened_iff t = go t.status
  where
    go : (s : ThreadStatus) → (elim s [ opened ↦ true | _ ↦ false ] ≡ true) ↔ (s ≡ opened)
    go opened = (λ e. refl, λ e. refl)
    go resolving = (λ e. cc e, λ e. cc e)
    go resolved = (λ e. cc e, λ e. cc e)
    go cancelled = (λ e. cc e, λ e. cc e)
    go poisoned = (λ e. cc e, λ e. cc e)

-- Where nobody else is present, nobody is concerned.
nobody_concerned :
    (env : Env) (r : Review) (db : Db) {t : Thread}
    → IsAlone env r db t
    → concerned_ids env r db ≡ []
nobody_concerned env r db a = elim (empty_or_not (concerned_ids env r db)) [
  | inl (e, l) ↦ l
  | inr (e, (i, m)) ↦
      let c = (concerned_ids_iff env r db i).0 m in
      absurd (c.other (a.nobody c.who c.listed c.present))
]

is_alone_iff :
    (env : Env) (r : Review) (db : Db) (t : Thread)
    → (is_alone env r db t ≡ true) ↔ IsAlone env r db t
is_alone_iff env r db t = (
  λ h. record {
    waits = (opened_iff t).0 (ground arith);
    settles = ground arith;
    nobody = (nobody_else_iff env r db).0 (ground arith);
  },
  λ a.
      rw
        (
          nobody_concerned env r db a,
          (nobody_else_iff env r db).1 a.nobody,
          (opened_iff t).1 a.waits,
          a.settles,
        )
        refl,
)

-- After the flow an existing thread waits for exactly the agents that are concerned: those present,
-- but for the announcer, that have announced one of the files, have edited one lately or are editing
-- one. It is resolved, with nobody to wait for, where it was open, is not to be kept open, and
-- nobody but the announcer is present; otherwise nothing else of it changes.
pub flow_exact :
    (env : Env) (r : Review) (id : String) (db : Db) {t : Thread}
    → get_thread r.params.org_id id db ≡ some t
    → let alive = heartbeat env r.params.org_id r.params.agent_id db in
      (u : Thread) × (get_thread r.params.org_id id (run_common_announce_flow env r id db) ≡ some u)
      × ((a : String) → Memᴰ a u.expected_respondents ↔ IsConcerned env r alive a)
      × ((IsAlone env r alive t
            × (u ≡ record t {
              expected_respondents = [];
              status = resolved;
              resolved_at = some (to_iso env.now);
            }))
          ⊎ ((¬ IsAlone env r alive t)
              × (u ≡ record t { expected_respondents = u.expected_respondents })))
flow_exact env r id db {t} found =
    let alive = heartbeat env r.params.org_id r.params.agent_id db in
    let ids = concerned_ids env r alive in
    let row = flow_row env r id db found in
    elim (Bool-cases (is_alone env r alive t)) [
      | inl h ↦
          let a = (is_alone_iff env r alive t).0 h in
          let u : Thread = record t {
            expected_respondents = ids;
            status = resolved;
            resolved_at = some (to_iso env.now);
          } in
          (
            u,
            row ∙ rw h refl,
            concerned_ids_iff env r alive,
            inl (
              a,
              ap (λ l. record u { expected_respondents = l }) (nobody_concerned env r alive a),
            ),
          )
      | inr h ↦ (
        record t { expected_respondents = ids },
        row ∙ rw h refl,
        concerned_ids_iff env r alive,
        inr (λ a. absurd (cc ((is_alone_iff env r alive t).1 a, h)), refl),
      )
    ]
