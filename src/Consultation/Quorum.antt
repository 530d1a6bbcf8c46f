-- ===== src/Consultation/Quorum.antt =====
-- approveResolution: the quorum and the consensus.
use mcp_coordinator.Prelude.{
  ℕ, ◌≡◌, ◌↔◌, refl, sym, ap, ◌∙◌, inl, inr, String, Bool, true, false, ◌&&◌, Option, List, some,
  ◌==◌, eq_iff, any, any_of_Mem, any_witness, all-Mem, all_of_Mem, arith, Memᴰ, Bool-cases,
  if◌then◌else◌,
}
use mcp_coordinator.Clock.{to_iso}
use mcp_coordinator.Table.{
  find_row, find_row-Mem, find_row_total, find_row-update_where, insert_row,
}
use mcp_coordinator.Store.{
  Env, Db, Thread, ThreadMessage, ResolutionEvent, ResolutionType, resolved, approve, consensus,
  is_resolving, keyed, get_thread,
}
use mcp_coordinator.Consultation.Exec.{Exec, Outcome, pure, transaction, ok, ◌>>=◌, ◌>>◌}
use mcp_coordinator.Consultation.Resolution.{
  is_approval, has_approved, all_respondents_approved, post_resolution_message, vote, tally,
  win_race, announce_consensus, approve_resolution, emit_resolution, event, agent_label,
}
use mcp_coordinator.Lifecycle.Resolution.{threads-post_resolution_message, threads-emit_resolution}

-- A message of the thread by which the agent approved in the round.
pub record Approval (id : String) (round : ℕ) (agent : String) (m : ThreadMessage) : Type 0 where
  pub thread : m.thread_id ≡ id
  pub kind : is_approval m ≡ true
  pub current : m.round ≡ round
  pub by : m.agent_id ≡ agent

abbrev pub IsQuorum : String → Thread → List ThreadMessage → Type 0
IsQuorum id t messages =
    (r : String)
    → Memᴰ r t.expected_respondents
    → (m : ThreadMessage) × Memᴰ m messages × Approval id t.round r m

has_approved_iff :
    (id : String) (round : ℕ) (agent : String) (m : ThreadMessage)
    → (has_approved id round agent m ≡ true) ↔ Approval id round agent m
has_approved_iff id round agent m = (
  λ h. record {
    thread = (eq_iff m.thread_id id).0 (ground arith);
    kind = ground arith;
    current = ground arith;
    by = (eq_iff m.agent_id agent).0 (ground arith);
  },
  λ a. ground (
    arith,
    a.kind,
    a.current,
    (eq_iff m.thread_id id).1 a.thread,
    (eq_iff m.agent_id agent).1 a.by,
  ),
)

-- The check of allRespondentsApproved is exact: it holds if and only if every expected respondent
-- has posted an approval of this thread in its current round.
pub IsQuorum-exact :
    (id : String) (t : Thread) (db : Db)
    → (all_respondents_approved id t db ≡ true) ↔ IsQuorum id t db.messages
unfolding all_respondents_approved
IsQuorum-exact id t db = (
  λ h r m.
      let (x, n, e) = any_witness (has_approved id t.round r) db.messages (all-Mem _ h m) in
      (x, n, (has_approved_iff id t.round r x).0 e),
  λ q. all_of_Mem _ t.expected_respondents λ r m.
      let (x, n, a) = q r m in
      any_of_Mem (has_approved id t.round r) n ((has_approved_iff id t.round r x).1 a),
)

-- emitResolution hands one event of the given type to the callback, for a thread that is there.
emitted :
    (env : Env) (id : String) (type : ResolutionType) (by name : Option String) (db : Db)
    (t : Thread)
    → find_row (λ (u : Thread). u.id == id) db.threads ≡ some t
    → (e : ResolutionEvent) × ((emit_resolution env id type by name db).resolutions
        ≡ insert_row e db.resolutions)
      × (e.thread_id ≡ id)
      × (e.resolution_type ≡ type)
      × (e.approved_by ≡ by)
unfolding emit_resolution
emitted env id type by name db t found =
    let db' = emit_resolution env id type by name db in
    (event env id type by name db t, rw (found, emit_resolution), refl, refl, refl)

bind_ok :
    {A B : Type 0} (m : Exec A) (f : A → Exec B) (db : Db) {a : A} {after : Db}
    → m db ≡ (ok a, after)
    → (m >>= f) db ≡ f a after
bind_ok m f db e = rw (ap (λ r. r.0) e, ap (λ r. r.1) e, ◌>>=◌)

transaction_ok :
    {A : Type 0} (m : Exec A) (db : Db) {a : A} {after : Db}
    → m db ≡ (ok a, after)
    → transaction m db ≡ (ok a, after)
transaction_ok m db e = rw (ap (λ r. r.0) e, ap (λ r. r.1) e, transaction)

module _ (env : Env) (org id agent : String) (name : Option String) (db : Db) (t : Thread)
    (voted : Db) (found : get_thread org id db ≡ some t) (pending : is_resolving t ≡ true)
    (posted : post_resolution_message env org id agent approve "Approved" db ≡ (ok tt, voted)) where
  same_threads : voted.threads ≡ db.threads
  same_threads =
      sym (ap (λ (r : Outcome (Unit {0}) × Db). r.1.threads) posted)
      ∙ threads-post_resolution_message env org id agent approve "Approved" db

  found_again : get_thread org id voted ≡ some t
  found_again = ap (find_row (keyed org id)) same_threads ∙ found

  vote_lem : vote env org id agent db ≡ tally env org id voted
  unfolding vote
  vote_lem =
      bind_ok (post_resolution_message env org id agent approve "Approved") (λ _. tally env org id)
        db posted

  approve_lem :
      {won : Bool} {after : Db}
      → tally env org id voted ≡ (ok won, after)
      → approve_resolution env org id agent name db ≡ announce_consensus env id agent name won after
  unfolding approve_resolution
  approve_lem e =
      rw (found, pending, ◌>>=◌, ◌>>◌)
        (bind_ok (transaction (vote env org id agent))
          (λ won. announce_consensus env id agent name won) db
          (transaction_ok (vote env org id agent) db (vote_lem ∙ e)))

  tally_lem :
      {agreed : Bool}
      → all_respondents_approved id t voted ≡ agreed
      → tally env org id voted ≡ (if agreed then win_race env org id else pure false) voted
  unfolding tally
  tally_lem e = rw (found_again, e, ◌>>=◌)

  -- While an approval of the current round is missing, approving a resolving thread records the
  -- vote and changes nothing else. (Where the vote can be recorded.)
  pub approve_waits :
      ¬ IsQuorum id t voted.messages → approve_resolution env org id agent name db ≡ (ok tt, voted)
  unfolding announce_consensus
  approve_waits short = elim (Bool-cases (all_respondents_approved id t voted)) [
    | inl quorum ↦ absurd (short ((IsQuorum-exact id t voted).0 quorum))
    | inr missing ↦ approve_lem (tally_lem missing)
  ]

  abbrev final : Thread
  final = record t { status = resolved; resolved_at = some (to_iso env.now) }

  raced : Db
  unfolding win_race
  raced = (win_race env org id voted).1

  final_found : get_thread org id raced ≡ some final
  unfolding raced win_race
  final_found =
      let (n, key) = find_row-Mem (keyed org id) voted.threads found_again in
      find_row-update_where (keyed org id) (λ t. keyed org id t && is_resolving t)
        (λ t. record t { status = resolved; resolved_at = some (to_iso env.now) }) voted.threads
        (λ x. refl)
      ∙ rw (found_again, key, pending)

  concluded :
      IsQuorum id t voted.messages
      → approve_resolution env org id agent name db ≡ (
        ok tt,
        emit_resolution env id consensus (some agent) (some (agent_label name agent)) raced,
      )
  unfolding announce_consensus win_race raced
  concluded quorum =
      let (n, key) = find_row-Mem (keyed org id) voted.threads found_again in
      let won : any (λ t. keyed org id t && is_resolving t) voted.threads ≡ true =
        any_of_Mem (λ t. keyed org id t && is_resolving t) n (ground (arith, key, pending)) in
      approve_lem (tally_lem ((IsQuorum-exact id t voted).1 quorum)) ∙ rw won

  -- The vote that completes the quorum of a resolving thread resolves it, and hands over one event,
  -- a consensus approved by this agent. (Where the vote can be recorded.)
  pub approve_concludes :
      IsQuorum id t voted.messages
      → let (reply, after) = approve_resolution env org id agent name db in
        (reply ≡ ok tt)
        × (get_thread org id after
            ≡ some (record t { status = resolved; resolved_at = some (to_iso env.now) }))
        × (e : ResolutionEvent) × (after.resolutions ≡ insert_row e voted.resolutions)
        × (e.thread_id ≡ id)
        × (e.resolution_type ≡ consensus)
        × (e.approved_by ≡ some agent)
  unfolding raced
  approve_concludes quorum =
      let (n, key) = find_row-Mem (keyed org id) raced.threads final_found in
      let (x, there) = find_row_total (λ (u : Thread). u.id == id) n (ground (arith, key)) in
      let by = some (agent_label name agent) in
      let (e, told, about, type, who) = emitted env id consensus (some agent) by raced x there in
      let whole = concluded quorum in
      (
        ap (λ (r : Outcome (Unit {0}) × Db). r.0) whole,
        ap (λ (r : Outcome (Unit {0}) × Db). get_thread org id r.1) whole
            ∙ ap (find_row (keyed org id))
                (threads-emit_resolution env id consensus (some agent) by raced)
            ∙ final_found,
        e,
        ap (λ (r : Outcome (Unit {0}) × Db). r.1.resolutions) whole ∙ told,
        about,
        type,
        who,
      )
