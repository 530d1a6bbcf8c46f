-- ===== src/Lifecycle/Resolution.antt =====
-- The methods of Consultation that settle a thread, as transitions.
use mcp_coordinator.Prelude.{
  ◌+◌, ◌≡◌, refl, inl, inr, String, Bool, true, false, ◌||◌, Option, none, some, ◌==◌, equals,
  or_null, arith, ltb, Bool-cases, Option-cases,
}
use mcp_coordinator.Clock.{to_iso}
use mcp_coordinator.Store.{
  Env, Db, Thread, MessageType, ResolutionType, resolution, contest, approve, context, is_active,
  max_rounds, consensus, closed, get_thread, is_resolving,
}
use mcp_coordinator.Consultation.Exec.{◌>>=◌, ◌>>◌, insert_message, transaction}
use mcp_coordinator.Consultation.Resolution.{
  emit_resolution, post_resolution_message, propose_resolution, contest_resolution, next_round,
  tally, all_respondents_approved, announce_consensus, approve_resolution, vote, win_race,
  close_thread, cancel_thread, explain,
}
use mcp_coordinator.Lifecycle.{propose, resolve, reopen, cancel}
use mcp_coordinator.Lifecycle.Lives.{
  Lives, within, Lives-same, Lives-refl, Lives-trans, Lives-update, Lives-update_thread, bind-Lives,
  get_thread-same, transaction-Lives,
}

pub threads-post_resolution_message :
    (env : Env) (org id agent : String) (type : MessageType) (content : String) (db : Db)
    → (post_resolution_message env org id agent type content db).1.threads ≡ db.threads
unfolding post_resolution_message insert_message
threads-post_resolution_message env org id agent type content db = ground arith

pub threads-emit_resolution :
    (env : Env) (id : String) (type : ResolutionType) (by name : Option String) (db : Db)
    → (emit_resolution env id type by name db).threads ≡ db.threads
unfolding emit_resolution
threads-emit_resolution env id type by name db = ground arith

pub propose-Lives :
    (env : Env) (org id agent summary : String) (db : Db)
    → Lives (within org) db (propose_resolution env org id agent summary db).1
unfolding propose_resolution
propose-Lives env org id agent summary db = elim (Option-cases (get_thread org id db)) [
  | inl e ↦ rw (e, ◌>>=◌) Lives-refl
  | inr (t, e) ↦ elim (Bool-cases (t.initiator_id == agent || equals t.claimed_by agent)) [
    | inl h ↦
        rw (e, h, ◌>>=◌, ◌>>◌)
          (Lives-trans (Lives-update_thread org id db _ t (λ x. refl) e (propose summary refl))
            (Lives-same (threads-post_resolution_message env org id agent resolution summary _)))
    | inr h ↦ rw (e, h, ◌>>=◌, ◌>>◌) Lives-refl
  ]
]

next_round-Lives :
    (env : Env) (org id : String) (t : Thread) (db : Db)
    → get_thread org id db ≡ some t
    → is_resolving t ≡ true
    → Lives (within org) db (next_round env org id t db).1
unfolding next_round
next_round-Lives env org id t db found h = elim (Bool-cases (ltb t.max_rounds (t.round + 1))) [
  | inl last ↦ rw last (
      Lives-trans
        (Lives-update_thread org id db _ t (λ x. refl) found
          (resolve t.resolution_summary (to_iso env.now) (ground arith) refl))
        (Lives-same (threads-emit_resolution env id max_rounds none none _)))
  | inr more ↦
      rw more (Lives-update_thread org id db _ t (λ x. refl) found (reopen h (ground arith) refl))
]

pub contest-Lives :
    (env : Env) (org id agent reason : String) (db : Db)
    → Lives (within org) db (contest_resolution env org id agent reason db).1
unfolding contest_resolution
contest-Lives env org id agent reason db = elim (Option-cases (get_thread org id db)) [
  | inl e ↦ rw (e, ◌>>=◌) Lives-refl
  | inr (t, e) ↦ elim (Bool-cases (is_resolving t)) [
    | inl h ↦
        let post = post_resolution_message env org id agent contest reason in
        let posted = threads-post_resolution_message env org id agent contest reason db in
        rw (e, h, ◌>>=◌, ◌>>◌)
          (bind-Lives post (λ _. next_round env org id t) db (Lives-same posted)
            (λ _.
              next_round-Lives env org id t (post db).1
                (get_thread-same org id db (post db).1 posted e) h))
    | inr h ↦ rw (e, h, ◌>>=◌, ◌>>◌) Lives-refl
  ]
]

win_race-Lives :
    (env : Env) (org id : String) (db : Db) → Lives (within org) db (win_race env org id db).1
unfolding win_race
win_race-Lives env org id db =
    Lives-update db _ _ (λ x. refl) (λ x h. ground arith)
      λ k x m h. resolve x.resolution_summary (to_iso env.now) (ground arith) refl

tally-Lives :
    (env : Env) (org id : String) (db : Db) → Lives (within org) db (tally env org id db).1
unfolding tally
tally-Lives env org id db = elim (Option-cases (get_thread org id db)) [
  | inl e ↦ rw (e, ◌>>=◌) Lives-refl
  | inr (t, e) ↦ elim (Bool-cases (all_respondents_approved id t db)) [
    | inl h ↦ rw (e, h, ◌>>=◌) (win_race-Lives env org id db)
    | inr h ↦ rw (e, h, ◌>>=◌) Lives-refl
  ]
]

vote-Lives :
    (env : Env) (org id agent : String) (db : Db)
    → Lives (within org) db (vote env org id agent db).1
unfolding vote
vote-Lives env org id agent db =
    let post = post_resolution_message env org id agent approve "Approved" in
    bind-Lives post (λ _. tally env org id) db
      (Lives-same (threads-post_resolution_message env org id agent approve "Approved" db))
      (λ _. tally-Lives env org id (post db).1)

announce_consensus-Lives :
    {scope : String → Bool} (env : Env) (id agent : String) (name : Option String) (won : Bool)
    (db : Db)
    → Lives scope db (announce_consensus env id agent name won db).1
unfolding announce_consensus
announce_consensus-Lives env id agent name true db =
    Lives-same (threads-emit_resolution env id consensus (some agent) _ db)
announce_consensus-Lives env id agent name false db = Lives-refl

pub approve-Lives :
    (env : Env) (org id agent : String) (name : Option String) (db : Db)
    → Lives (within org) db (approve_resolution env org id agent name db).1
unfolding approve_resolution
approve-Lives env org id agent name db = elim (Option-cases (get_thread org id db)) [
  | inl e ↦ rw (e, ◌>>=◌) Lives-refl
  | inr (t, e) ↦ elim (Bool-cases (is_resolving t)) [
    | inl h ↦
        rw (e, h, ◌>>=◌, ◌>>◌)
          (bind-Lives (transaction (vote env org id agent)) (announce_consensus env id agent name)
            db (transaction-Lives (vote env org id agent) db (vote-Lives env org id agent db))
            (λ won. announce_consensus-Lives env id agent name won _))
    | inr h ↦ rw (e, h, ◌>>=◌, ◌>>◌) Lives-refl
  ]
]

explain-Lives :
    (env : Env) (org id agent : String) (reason : Option String) (db : Db)
    → Lives (within org) db (explain env org id agent reason db).1
unfolding explain
explain-Lives env org id agent none db = Lives-refl
explain-Lives env org id agent (some reason) db =
    Lives-same (threads-post_resolution_message env org id agent context _ db)

pub cancel-Lives :
    (env : Env) (org id agent : String) (reason : Option String) (db : Db)
    → Lives (within org) db (cancel_thread env org id agent reason db).1
unfolding cancel_thread
cancel-Lives env org id agent reason db = elim (Option-cases (get_thread org id db)) [
  | inl e ↦ rw (e, ◌>>=◌) Lives-refl
  | inr (t, e) ↦ elim (Bool-cases (t.initiator_id == agent)) [
    | inl h ↦
        rw (e, h, ◌>>=◌, ◌>>◌)
          (Lives-trans
            (Lives-update_thread org id db _ t (λ x. refl) e (cancel (to_iso env.now) refl))
            (explain-Lives env org id agent (or_null reason) _))
    | inr h ↦ rw (e, h, ◌>>=◌, ◌>>◌) Lives-refl
  ]
]

pub close-Lives :
    (env : Env) (org id agent summary : String) (db : Db)
    → Lives (within org) db (close_thread env org id agent summary db).1
unfolding close_thread
close-Lives env org id agent summary db = elim (Option-cases (get_thread org id db)) [
  | inl e ↦ rw (e, ◌>>=◌) Lives-refl
  | inr (t, e) ↦ elim (Bool-cases (t.initiator_id == agent)) [
    | inr h ↦ rw (e, h, ◌>>=◌, ◌>>◌) Lives-refl
    | inl h ↦ elim (Bool-cases (is_active t)) [
      | inr g ↦ rw (e, h, g, ◌>>=◌, ◌>>◌) Lives-refl
      | inl g ↦
          rw (e, h, g, ◌>>=◌, ◌>>◌)
            (Lives-trans
              (Lives-update_thread org id db _ t (λ x. refl) e
                (resolve (some summary) (to_iso env.now) g refl))
              (Lives-same (threads-emit_resolution env id closed none none _)))
    ]
  ]
]
