-- ===== src/Lifecycle/Claims.antt =====
-- The handlers that claim a thread and give a claim up, as transitions.
use mcp_coordinator.Prelude.{
  ◌+◌, refl, ap, inl, inr, String, ◌&&◌, any, arith, leb, Bool-cases, Option-cases,
}
use mcp_coordinator.Clock.{to_iso}
use mcp_coordinator.Store.{Env, Db, Thread, get_thread, keyed, is_opened}
use mcp_coordinator.Claims.{
  claimable, handle_claim_task, handle_unclaim_task, unclaimable, unclaimed, poison_worn_out,
}
use mcp_coordinator.Lifecycle.{claim, release, poison}
use mcp_coordinator.Lifecycle.Keys.{keyed_unique}
use mcp_coordinator.Lifecycle.Lives.{Lives, within, Lives-refl, Lives-trans, Lives-update}

pub claim-Lives :
    (env : Env) (org id agent : String) (db : Db)
    → Lives (within org) db (handle_claim_task env org id agent db).1
unfolding handle_claim_task
claim-Lives env org id agent db =
    elim (Bool-cases (any (claimable org id agent db.threads) db.threads)) [
      | inl h ↦ rw h (
          Lives-update db (claimable org id agent db.threads) _ (λ x. refl) (λ x h. ground arith)
            λ k x m c. claim agent (to_iso env.now) (ground arith) (ground arith) refl)
      | inr h ↦ rw h Lives-refl
    ]

poison_worn_out-Lives :
    (org id : String) (db : Db) → Lives (within org) db (poison_worn_out org id db).1
unfolding poison_worn_out
poison_worn_out-Lives org id db = elim (Option-cases (get_thread org id db)) [
  | inl e ↦ rw (e, poison_worn_out) Lives-refl
  | inr (row, e) ↦ elim (Bool-cases (leb 2 row.unclaim_count)) [
    | inl h ↦
        rw (e, h, poison_worn_out)
          (Lives-update db (λ t. keyed org id t && is_opened t) _ (λ x. refl) (λ x h. ground arith)
            λ k x m c.
              let same = keyed_unique org id db.threads k e m (ground arith) in
              poison (ground arith) (ground (arith, ap (λ (t : Thread). t.unclaim_count) same))
                refl)
    | inr h ↦ rw (e, h, poison_worn_out) Lives-refl
  ]
]

pub unclaim-Lives :
    (org id agent : String) (db : Db)
    → Lives (within org) db (handle_unclaim_task org id agent db).1
unfolding handle_unclaim_task
unclaim-Lives org id agent db = elim (Bool-cases (any (unclaimable org id agent) db.threads)) [
  | inl h ↦ rw h (
      Lives-trans
        (Lives-update db (unclaimable org id agent) unclaimed (λ x. refl) (λ x h. ground arith)
          λ k x m c. release (x.unclaim_count + 1) (ground arith) (omega arith) refl)
        (poison_worn_out-Lives org id _))
  | inr h ↦ rw h Lives-refl
]
