-- ===== src/Claims/Refusal.antt =====
-- What a refused claim says of the thread that blocks it.
use mcp_coordinator.Prelude.{
  ◌≡◌, refl, sym, ap, ◌∙◌, inl, inr, String, Bool, true, false, List, [], ◌∷◌, some, eq_iff,
  eq_refl, any, is_empty, includes, select, arith, Memᴰ, head, tail, Mem-select, Bool-cases,
}
use mcp_coordinator.Table.{find_row-Mem}
use mcp_coordinator.Store.{Env, Db, Thread, keyed, get_thread}
use mcp_coordinator.Claims.{
  claimable, ClaimConflict, refused, first_overlap, is_held, find_claim_file_conflict, refusal,
  handle_claim_task,
}
use mcp_coordinator.Claims.Grant.{IsBlocked, any-claimable}
use mcp_coordinator.Lifecycle.Keys.{IsKeyed}

select_nonempty :
    (p : String → Bool) (xs : List String) → any p xs ≡ true → is_empty (select p xs) ≡ false
select_nonempty p [] h = absurd (cc h)
select_nonempty p (x ∷ xs) h = ground (arith, select_nonempty p xs)

-- `c` names a thread of `rows` and exactly the wanted files that it touches, at least one.
pub record Names (wanted : List String) (rows : List Thread) (c : ClaimConflict) : Type 0 where
  pub holder : Thread
  pub listed : Memᴰ holder rows
  pub thread : c.thread_id ≡ holder.id
  pub files : c.files ≡ select (includes holder.target_files) wanted
  pub some_file : is_empty c.files ≡ false

Names-tail :
    {wanted : List String} {x : Thread} {rows : List Thread} {c : ClaimConflict}
    → Names wanted rows c
    → Names wanted (x ∷ rows) c
Names-tail n = record {
  holder = n.holder;
  listed = tail n.listed;
  thread = n.thread;
  files = n.files;
  some_file = n.some_file;
}

first_overlap-Names :
    (wanted : List String) {other : Thread} {rows : List Thread}
    → Memᴰ other rows
    → any (includes other.target_files) wanted ≡ true
    → (c : ClaimConflict) × (first_overlap wanted rows ≡ some c) × Names wanted rows c
unfolding first_overlap
first_overlap-Names wanted (head {x = x} {xs = rows} e) h =
    let full =
      select_nonempty (includes x.target_files) wanted
        (ap (λ (t : Thread). any (includes t.target_files) wanted) (sym e) ∙ h) in
    (
      record { thread_id = x.id; files = select (includes x.target_files) wanted },
      rw full,
      record { holder = x; listed = head refl; thread = refl; files = refl; some_file = full },
    )
first_overlap-Names wanted (tail {x = x} {xs = rows} m) h =
    elim (Bool-cases (is_empty (select (includes x.target_files) wanted))) [
      | inr full ↦ (
        record { thread_id = x.id; files = select (includes x.target_files) wanted },
        rw full,
        record { holder = x; listed = head refl; thread = refl; files = refl; some_file = full },
      )
      | inl bare ↦ let (c, e, n) = first_overlap-Names wanted m h in (c, rw bare e, Names-tail n)
    ]

wanted_nonempty : (p : String → Bool) (xs : List String) → any p xs ≡ true → is_empty xs ≡ false
wanted_nonempty p [] h = absurd (cc h)
wanted_nonempty p (x ∷ xs) h = refl

blocked_claim :
    (org id agent : String) (db : Db) {t : Thread}
    → IsKeyed db.threads
    → get_thread org id db ≡ some t
    → IsBlocked agent t db.threads
    → any (claimable org id agent db.threads) db.threads ≡ false
blocked_claim org id agent db k found b =
    elim (Bool-cases (any (claimable org id agent db.threads) db.threads)) [
      | inl h ↦ absurd (((any-claimable org id agent db k found).0 h).unblocked b)
      | inr h ↦ h
    ]

-- Where the ids are distinct, a claim that another agent's thread blocks is refused with the
-- columns of the thread, the id of such a thread and exactly the files that the two have in common.
pub refusal_explained :
    (env : Env) (org id agent : String) (db : Db) {t : Thread}
    → IsKeyed db.threads
    → get_thread org id db ≡ some t
    → IsBlocked agent t db.threads
    → (c : ClaimConflict) × ((handle_claim_task env org id agent db).0
        ≡ refused t.claimed_by t.assigned_to (some t.status) (some c))
      × Names t.target_files (select (is_held org id agent) db.threads) c
unfolding handle_claim_task find_claim_file_conflict refusal
refusal_explained env org id agent db {t} k found b =
    let (n, key) = find_row-Mem (keyed org id) db.threads found in
    let held : is_held org id agent b.holder ≡ true = ground (
      arith,
      eq_iff t.id id,
      eq_iff t.org_id org,
      eq_refl org,
      b.same_org,
      b.other,
      b.is_open,
      b.held,
    ) in
    let (c, e, names) =
      first_overlap-Names t.target_files (Mem-select (is_held org id agent) b.listed held)
        b.shared in
    let some_file = wanted_nonempty (includes b.holder.target_files) t.target_files b.shared in
    (
      c,
      rw (blocked_claim org id agent db k found b, found, some_file, e, find_claim_file_conflict),
      names,
    )
