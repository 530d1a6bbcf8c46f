-- ===== src/Claims/Gap.antt =====
-- contestResolution and file exclusion.
use mcp_coordinator.Prelude.{
  ◌+◌, ◌≤◌, ◌≡◌, refl, ap, ◌∙◌, String, true, false, ◌&&◌, some, ◌==◌, eq_iff, arith, Memᴰ,
  Bool-cases, inl, inr,
}
use mcp_coordinator.Table.{update_where, Mem-update_where, find_row-Mem}
use mcp_coordinator.Store.{Env, Db, Thread, contest, is_opened, is_resolving, keyed, get_thread}
use mcp_coordinator.Consultation.Exec.{Outcome, ok}
use mcp_coordinator.Consultation.Resolution.{post_resolution_message, contest_resolution}
use mcp_coordinator.Consultation.Rounds.{reopened, contest_reopens}
use mcp_coordinator.Lifecycle.Keys.{IsKeyed, IsKeyed-unique}
use mcp_coordinator.Lifecycle.Resolution.{threads-post_resolution_message}
use mcp_coordinator.Claims.{shares_file}
use mcp_coordinator.Claims.Exclusion.{IsExclusive}

keyed_of_ids :
    (org id : String) (t : Thread)
    → (t.id == id && t.org_id == org) ≡ true
    → (other : Thread) → (t.id == other.id) ≡ false
    → keyed org id other ≡ false
keyed_of_ids org id t key other apart =
    ground (arith, eq_iff t.id id, eq_iff other.id id, eq_iff t.id other.id)

-- Where the ids are distinct, and a resolving thread and an open thread of its organisation are
-- held by different agents and share a file, a contest of the first that posts its message and has
-- rounds left leaves two open threads in contention.
pub contest_breaks_exclusion :
    (env : Env) (org id agent reason : String) (db : Db) (t other : Thread) (a b : String)
    → IsKeyed db.threads
    → get_thread org id db ≡ some t
    → is_resolving t ≡ true
    → t.round + 1 ≤ t.max_rounds
    → Memᴰ other db.threads
    → is_opened other ≡ true
    → t.org_id ≡ other.org_id
    → t.claimed_by ≡ some a
    → other.claimed_by ≡ some b
    → (a == b) ≡ false
    → shares_file t other ≡ true
    → (post_resolution_message env org id agent contest reason db).0 ≡ ok tt
    → ¬ IsExclusive (contest_resolution env org id agent reason db).1
contest_breaks_exclusion env org id agent reason db t other a b k found r room m o same ha hb ab sh
      posted ex =
    let (n, key) = find_row-Mem (keyed org id) db.threads found in
    let away : (t.id == other.id) ≡ false = elim (Bool-cases (t.id == other.id)) [
      | inl e ↦
          let one : t ≡ other = IsKeyed-unique k n m ((eq_iff t.id other.id).0 e) in
          absurd (ground (arith, ap is_resolving one, ap is_opened one))
      | inr e ↦ e
    ] in
    let row = reopened (t.round + 1) in
    let table = threads-post_resolution_message env org id agent contest reason db in
    let whole = contest_reopens env org id agent reason db t found r room posted in
    let threads =
      ap (λ (r : Outcome (Unit {0}) × Db). r.1.threads) whole
      ∙ ap (update_where (keyed org id) row) table in
    let held = Mem-update_where (keyed org id) row n in
    let rival = Mem-update_where (keyed org id) row m in
    let missed = keyed_of_ids org id t key other away in
    ex (row t) other (rw threads (rw key at held)) (rw threads (rw missed at rival)) (record {
      same_org = same;
      apart = away;
      open_a = refl;
      open_b = o;
      agent_a = a;
      agent_b = b;
      held_a = ha;
      held_b = hb;
      rivals = ab;
      shared = sh;
    })
