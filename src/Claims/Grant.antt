-- ===== src/Claims/Grant.antt =====
-- When handleClaimTask grants a thread, and what a refusal says.
use mcp_coordinator.Prelude.{
  ◌≡◌, ◌≢◌, ◌↔◌, ◌⊎◌, refl, ap, subst, inl, inr, String, true, false, not, ◌||◌, List, Option, none,
  some, ◌==◌, eq_iff, any, any_of_Mem, any_witness, is_some, equals, differs, arith, Memᴰ,
  Bool-cases,
}
use mcp_coordinator.Table.{find_row-Mem}
use mcp_coordinator.Store.{Env, Db, Thread, is_opened, keyed, get_thread}
use mcp_coordinator.Claims.{
  shares_file, blocks, claimable, ClaimConflict, success, refusal, handle_claim_task,
}
use mcp_coordinator.Lifecycle.Keys.{IsKeyed, keyed_unique}

-- Another open thread of the organisation is held by another agent and touches a file of `t`.
pub record IsBlocked (agent : String) (t : Thread) (threads : List Thread) : Type 0 where
  pub holder : Thread
  pub listed : Memᴰ holder threads
  pub same_org : holder.org_id ≡ t.org_id
  pub other : (holder.id == t.id) ≡ false
  pub is_open : is_opened holder ≡ true
  pub held : differs holder.claimed_by agent ≡ true
  pub shared : shares_file t holder ≡ true

-- The thread is open, free, not reserved for someone else, and not blocked.
pub record IsClaimable (agent : String) (t : Thread) (threads : List Thread) : Type 0 where
  pub is_open : is_opened t ≡ true
  pub free : t.claimed_by ≡ none
  pub reserved : (t.assigned_to ≡ none) ⊎ (t.assigned_to ≡ some agent)
  pub unblocked : ¬ IsBlocked agent t threads

IsBlocked-of_blocks :
    (agent : String) (t : Thread) (threads : List Thread)
    → any (blocks agent t) threads ≡ true
    → IsBlocked agent t threads
IsBlocked-of_blocks agent t threads h =
    let (o, m, e) = any_witness (blocks agent t) threads h in
    record {
      holder = o;
      listed = m;
      same_org = ground (arith, eq_iff o.org_id t.org_id);
      other = ground arith;
      is_open = ground arith;
      held = ground arith;
      shared = ground arith;
    }

blocks-of_IsBlocked :
    (agent : String) (t : Thread) (threads : List Thread)
    → IsBlocked agent t threads
    → any (blocks agent t) threads ≡ true
blocks-of_IsBlocked agent t threads b = any_of_Mem (blocks agent t) b.listed (
    ground
      (arith, eq_iff b.holder.org_id t.org_id, b.same_org, b.other, b.is_open, b.held, b.shared))

open_to_iff :
    (o : Option String) (agent : String)
    → ((not (is_some o) || equals o agent) ≡ true) ↔ ((o ≡ none) ⊎ (o ≡ some agent))
open_to_iff none agent = (λ _. inl refl, λ _. refl)
open_to_iff (some r) agent = (
  λ h. inr (ap some ((eq_iff r agent).0 h)),
  elim [ inl e ↦ absurd (cc e) | inr e ↦ (eq_iff r agent).1 (ground arith) ],
)

claimable_iff :
    (org id agent : String) (threads : List Thread) (t : Thread)
    → keyed org id t ≡ true
    → (claimable org id agent threads t ≡ true) ↔ IsClaimable agent t threads
unfolding claimable
claimable_iff org id agent threads t key = (
  λ h. record {
    is_open = ground arith;
    free = ground arith;
    reserved = (open_to_iff t.assigned_to agent).0 (ground arith);
    unblocked = λ b. ground (arith, blocks-of_IsBlocked agent t threads b);
  },
  λ c. elim (Bool-cases (any (blocks agent t) threads)) [
    | inl b ↦ absurd (c.unblocked (IsBlocked-of_blocks agent t threads b))
    | inr b ↦
        let reserved = (open_to_iff t.assigned_to agent).1 c.reserved in
        rw (key, c.free, c.is_open, reserved, b)
  ],
)

-- The UPDATE finds its row exactly where the thread looked up by its key is claimable.
pub any-claimable :
    (org id agent : String) (db : Db) {t : Thread}
    → IsKeyed db.threads
    → get_thread org id db ≡ some t
    → (any (claimable org id agent db.threads) db.threads ≡ true) ↔ IsClaimable agent t db.threads
unfolding claimable
any-claimable org id agent db {t} k found =
    let (n, key) = find_row-Mem (keyed org id) db.threads found in
    (
      λ h.
          let (x, m, c) = any_witness (claimable org id agent db.threads) db.threads h in
          let same : x ≡ t = keyed_unique org id db.threads k found m (ground arith) in
          (claimable_iff org id agent db.threads t key).0
            (subst (λ y. claimable org id agent db.threads y ≡ true) same c),
      λ c.
          any_of_Mem (claimable org id agent db.threads) n
            ((claimable_iff org id agent db.threads t key).1 c),
    )

refusal-ne-success : (o : Option Thread) (c : Option ClaimConflict) → refusal o c ≢ success
unfolding refusal
refusal-ne-success none c e = cc e
refusal-ne-success (some t) c e = cc e

-- Where the ids are distinct, a claim of an existing thread succeeds exactly when the thread is
-- open, unclaimed, reserved for nobody else, and no other open thread of the organisation that
-- another agent holds names one of its files.
pub claim_exact :
    (env : Env) (org id agent : String) (db : Db) {t : Thread}
    → IsKeyed db.threads
    → get_thread org id db ≡ some t
    → ((handle_claim_task env org id agent db).0 ≡ success) ↔ IsClaimable agent t db.threads
unfolding handle_claim_task
claim_exact env org id agent db {t} k found =
    let iff = any-claimable org id agent db k found in
    elim (Bool-cases (any (claimable org id agent db.threads) db.threads)) [
      | inl h ↦ (λ _. iff.0 h, λ _. rw h)
      | inr h ↦ (
        λ e. absurd (refusal-ne-success (get_thread org id db) _ (rw h at e)),
        λ c. absurd (cc (iff.1 c, h)),
      )
    ]
