-- ===== src/Lifecycle/Opening.antt =====
-- announceWork and postToThread, as transitions.
use mcp_coordinator.Prelude.{
  ℕ, ◌≡◌, refl, String, Bool, true, not, ◌&&◌, List, ◌==◌, any, is_empty, arith, Bool-cases, inl,
  inr, eq_refl,
}
use mcp_coordinator.Store.{Env, Db, Thread, is_registered}
use mcp_coordinator.Consultation.Exec.{require_thread, transaction, insert_message}
use mcp_coordinator.Consultation.Opening.{
  Announcement, Post, new_thread, insert_thread, open_thread, announce_work, post_to_thread,
  respondents, stays_open,
}
use mcp_coordinator.Lifecycle.{IsNew}
use mcp_coordinator.Lifecycle.Lives.{
  Lives, within, Lives-same, Lives-refl, Lives-insert, bind-Lives, transaction-Lives,
}

new_thread-IsNew :
    (env : Env) (org : String) (p : Announcement) (ids : List String)
    → IsNew (new_thread env org p ids)
unfolding new_thread
new_thread-IsNew env org p ids = elim (Bool-cases (is_empty ids && not (stays_open p))) [
  | inl h ↦ record { first_round = refl; rounds = refl; sound = rw h refl }
  | inr h ↦ record { first_round = refl; rounds = refl; sound = rw h tt }
]

insert_thread-Lives :
    {scope : String → Bool} (t : Thread) (db : Db)
    → IsNew t
    → scope t.org_id ≡ true
    → Lives scope db (insert_thread t db).1
unfolding insert_thread
insert_thread-Lives t db new here =
    elim (Bool-cases (any (λ (u : Thread). u.id == t.id) db.threads)) [
      | inl taken ↦ rw (taken, insert_thread) Lives-refl
      | inr fresh ↦ elim (Bool-cases (is_registered t.org_id t.initiator_id db)) [
        | inl known ↦ rw (fresh, known, insert_thread) (Lives-insert t db new here fresh)
        | inr unknown ↦ rw (fresh, unknown, insert_thread) Lives-refl
      ]
    ]

pub announce-Lives :
    (env : Env) (org : String) (p : Announcement) (db : Db)
    → Lives (within org) db (announce_work env org p db).1
unfolding announce_work open_thread
announce-Lives env org p db =
    bind-Lives (transaction (open_thread env org p)) (λ _. require_thread org env.uuid) db
      (transaction-Lives (open_thread env org p) db (
        insert_thread-Lives (new_thread env org p (respondents org p db)) db
          (new_thread-IsNew env org p (respondents org p db)) (here (respondents org p db))))
      (λ _. Lives-refl)
  where
    here : (ids : List String) → within org (new_thread env org p ids).org_id ≡ true
    here ids = unfold new_thread in eq_refl org

pub post-Lives :
    (utf16_length : String → ℕ) (env : Env) (org : String) (p : Post) (db : Db)
    → Lives (within org) db (post_to_thread utf16_length env org p db).1
unfolding post_to_thread insert_message
post-Lives utf16_length env org p db = Lives-same (ground arith)
