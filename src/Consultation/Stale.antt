-- ===== src/Consultation/Stale.antt =====
-- contestResolution and the approvals of earlier rounds.
use mcp_coordinator.Prelude.{
  ◌+◌, ◌≤◌, ◌≡◌, refl, ◌∙◌, ap, subst, ◌⊎◌, any, inl, inr, String, true, false, ◌==◌, [], ◌∷◌, some,
  Memᴰ, head, tail, Mem_of_append, arith, Bool-cases, Option-cases,
}
use mcp_coordinator.Store.{
  Env, Db, Thread, ThreadMessage, contest, is_resolving, keyed, get_thread, is_registered,
}
use mcp_coordinator.Consultation.Exec.{ok, insert_message, ◌>>=◌}
use mcp_coordinator.Consultation.Resolution.{
  is_approval, post_resolution_message, resolution_message, contest_resolution,
  all_respondents_approved,
}
use mcp_coordinator.Table.{find_row-Mem, find_row-update_where}
use mcp_coordinator.Lifecycle.Resolution.{threads-post_resolution_message}
use mcp_coordinator.Consultation.Rounds.{reopened, contest_reopens}
use mcp_coordinator.Consultation.Quorum.{IsQuorum-exact}

insert_posts :
    (x : ThreadMessage) (db : Db) (m : ThreadMessage)
    → Memᴰ m (insert_message x db).1.messages
    → Memᴰ m db.messages ⊎ (m ≡ x)
unfolding insert_message
insert_posts x db m n = elim (Bool-cases (any (λ (y : ThreadMessage). y.id == x.id) db.messages)) [
  | inl taken ↦ inl (rw (taken, insert_message) at n)
  | inr new ↦ elim (Bool-cases (is_registered x.org_id x.agent_id db)) [
    | inr stranger ↦ inl (rw (new, stranger, insert_message) at n)
    | inl known ↦ elim (Mem_of_append db.messages (rw (new, known, insert_message) at n)) [
      | inl old ↦ inl old
      | inr this ↦ inr (only this)
    ]
  ]
]
  where
    only : {y : ThreadMessage} → Memᴰ m (y ∷ []) → m ≡ y
    only (head e) = e
    only (tail k) = elim k [ ]

-- The messages after a contest are those before and one that is no approval.
contest_posts :
    (env : Env) (org id agent reason : String) (db : Db) (m : ThreadMessage)
    → Memᴰ m (post_resolution_message env org id agent contest reason db).1.messages
    → is_approval m ≡ true
    → Memᴰ m db.messages
unfolding post_resolution_message resolution_message
contest_posts env org id agent reason db m n approves = elim (Option-cases (get_thread org id db)) [
  | inl e ↦ rw (e, post_resolution_message, ◌>>=◌) at n
  | inr (t, e) ↦
      let x = resolution_message env org id agent contest reason t.round in
      elim (insert_posts x db m (rw (e, post_resolution_message, ◌>>=◌) at n)) [
        | inl old ↦ old
        | inr this ↦ absurd (cc (ap is_approval this, approves))
      ]
]

contest_leaves :
    (env : Env) (org id agent reason : String) (db : Db) (t : Thread)
    → get_thread org id db ≡ some t
    → is_resolving t ≡ true
    → t.round + 1 ≤ t.max_rounds
    → (post_resolution_message env org id agent contest reason db).0 ≡ ok tt
    → get_thread org id (contest_resolution env org id agent reason db).1
      ≡ some (reopened (t.round + 1) t)
contest_leaves env org id agent reason db t found pending room posted =
    ap (λ x. get_thread org id x.1)
      (contest_reopens env org id agent reason db t found pending room posted)
    ∙ find_row-update_where (keyed org id) (keyed org id) (reopened (t.round + 1))
        (post_resolution_message env org id agent contest reason db).1.threads (λ x. refl)
    ∙ rw
        (
          threads-post_resolution_message env org id agent contest reason db,
          found,
          (find_row-Mem (keyed org id) db.threads found).1,
        )
        refl

no_quorum :
    (env : Env) (org id agent reason : String) (db : Db) (t : Thread) (r : String)
    → get_thread org id db ≡ some t
    → is_resolving t ≡ true
    → t.round + 1 ≤ t.max_rounds
    → (post_resolution_message env org id agent contest reason db).0 ≡ ok tt
    → ((m : ThreadMessage) → Memᴰ m db.messages → m.thread_id ≡ id → m.round ≤ t.round)
    → Memᴰ r t.expected_respondents
    → all_respondents_approved id
        (reopened (t.round + 1) t)
        (contest_resolution env org id agent reason db).1
      ≡ false
no_quorum env org id agent reason db t r found pending room posted past expected =
    let after = (contest_resolution env org id agent reason db).1 in
    elim (Bool-cases (all_respondents_approved id (reopened (t.round + 1) t) after)) [
      | inr h ↦ h
      | inl h ↦
          let quorum = (IsQuorum-exact id (reopened (t.round + 1) t) after).0 h in
          let (m, n, a) = quorum r expected in
          let same =
            ap (λ x. x.1.messages)
              (contest_reopens env org id agent reason db t found pending room posted) in
          let old =
            contest_posts env org id agent reason db m (subst (λ l. Memᴰ m l) same n) a.kind in
          let early = past m old a.thread in let late = a.current in absurd (omega arith)
    ]

-- A contest voids every approval: where the messages of the thread are of its rounds so far, the
-- contest posts its message, rounds are left and somebody is expected to respond, the row that the
-- contest leaves is in the next round, and has no quorum.
pub contest_voids :
    (env : Env) (org id agent reason : String) (db : Db) (t : Thread) (r : String)
    → get_thread org id db ≡ some t
    → is_resolving t ≡ true
    → t.round + 1 ≤ t.max_rounds
    → (post_resolution_message env org id agent contest reason db).0 ≡ ok tt
    → ((m : ThreadMessage) → Memᴰ m db.messages → m.thread_id ≡ id → m.round ≤ t.round)
    → Memᴰ r t.expected_respondents
    → let after = (contest_resolution env org id agent reason db).1 in
      (u : Thread) × (get_thread org id after ≡ some u)
      × (u.round ≡ t.round + 1)
      × (all_respondents_approved id u after ≡ false)
contest_voids env org id agent reason db t r found pending room posted past expected = (
  reopened (t.round + 1) t,
  contest_leaves env org id agent reason db t found pending room posted,
  refl,
  no_quorum env org id agent reason db t r found pending room posted past expected,
)
