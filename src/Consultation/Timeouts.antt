-- ===== src/Consultation/Timeouts.antt =====
-- checkTimeouts: what one sweep leaves behind, and what it tells.
use mcp_coordinator.Prelude.{
  some, ℕ, ◌+◌, ◌*◌, ◌/◌, ◌<◌, ltb→lt, ◌↔◌, ◌⊎◌, ◌≡◌, refl, sym, ap, subst, ◌∙◌, inl, inr, Bool,
  true, false, List, [], ◌∷◌, none, ◌==◌, eq_refl, any, length, length-append, select, arith, Memᴰ,
  head, tail, Bool-cases, Mem_of_select,
}
use mcp_coordinator.Table.{find_row_total, update_where, count_where, Mem-update_where}
use mcp_coordinator.Store.{
  Env, Db, Thread, ThreadStatus, opened, resolving, resolved, cancelled, poisoned, is_active,
  timeout,
}
use mcp_coordinator.Clock.{to_seconds, current_timestamp, text_lt-of_seconds}
use mcp_coordinator.Table.Evolves.{Evolves}
use mcp_coordinator.Consultation.Resolution.{emit_resolution, event}
use mcp_coordinator.Consultation.Sweeps.{
  is_overdue, time_out, timeout_summary, emit_all, check_timeouts,
}
use mcp_coordinator.Lifecycle.Resolution.{threads-emit_resolution}
use mcp_coordinator.Lifecycle.Sweeps.{threads-emit_all}

finished : (now : ℕ) (t : Thread) → is_overdue now (time_out now t) ≡ false
unfolding is_overdue time_out
finished now t = refl

none_overdue :
    (now : ℕ) (ts : List Thread)
    → any (is_overdue now) (update_where (is_overdue now) (time_out now) ts) ≡ false
none_overdue now [] = refl
none_overdue now (t ∷ ts) = elim (Bool-cases (is_overdue now t)) [
  | inl late ↦ rw (late, finished now t) (none_overdue now ts)
  | inr fine ↦ rw (fine, fine) (none_overdue now ts)
]

-- After a sweep no thread of any organisation is overdue at that moment.
pub timeouts-clean :
    (env : Env) (db : Db) → any (is_overdue env.now) (check_timeouts env db).threads ≡ false
unfolding check_timeouts
timeouts-clean env db =
    ap (any (is_overdue env.now)) (threads-emit_all env (select (is_overdue env.now) db.threads) _)
    ∙ none_overdue env.now db.threads

told_one :
    (env : Env) (t : Thread) (db : Db) {u : Thread}
    → Memᴰ u db.threads
    → (u.id == t.id) ≡ true
    → length (emit_resolution env t.id timeout none none db).resolutions ≡ length db.resolutions + 1
unfolding emit_resolution
told_one env t db m e =
    let (x, found) = find_row_total (λ (v : Thread). v.id == t.id) m e in
    rw (found, emit_resolution)
      (length-append db.resolutions (event env t.id timeout none none db x ∷ []))

told_all :
    (env : Env) (ts : List Thread) (db : Db)
    → ((t : Thread) → Memᴰ t ts → (u : Thread) × Memᴰ u db.threads × ((u.id == t.id) ≡ true))
    → length (emit_all env ts db).resolutions ≡ length db.resolutions + length ts
unfolding emit_all
told_all env [] db there = omega arith
told_all env (t ∷ ts) db there =
    let (u, m, e) = there t (head refl) in
    let one = told_one env t db m e in
    let same = threads-emit_resolution env t.id timeout none none db in
    let rest =
      told_all env ts (emit_resolution env t.id timeout none none db)
        λ x n. let (v, k, f) = there x (tail n) in (v, subst (λ l. Memᴰ v l) (sym same) k, f) in
    omega arith

swept_row :
    (now : ℕ) (ts : List Thread) (t : Thread)
    → Memᴰ t (select (is_overdue now) ts)
    → (u : Thread) × Memᴰ u (update_where (is_overdue now) (time_out now) ts)
      × ((u.id == t.id) ≡ true)
unfolding time_out
swept_row now ts t m =
    let (n, late) = Mem_of_select (is_overdue now) ts m in
    let kept = Mem-update_where (is_overdue now) (time_out now) n in
    (time_out now t, rw late at kept, eq_refl t.id)

length-select : (p : Thread → Bool) (ts : List Thread) → length (select p ts) ≡ count_where p ts
length-select p [] = refl
length-select p (t ∷ ts) = ground (arith, length-select p ts)

-- A sweep hands over one event for each overdue thread.
pub timeouts-told :
    (env : Env) (db : Db)
    → length (check_timeouts env db).resolutions
      ≡ length db.resolutions + count_where (is_overdue env.now) db.threads
unfolding check_timeouts
timeouts-told env db =
    let overdue = select (is_overdue env.now) db.threads in
    let swept : Db = record db {
      threads = update_where (is_overdue env.now) (time_out env.now) db.threads;
    } in
    told_all env overdue swept (λ t m. swept_row env.now db.threads t m)
    ∙ ap (λ n. length db.resolutions + n) (length-select (is_overdue env.now) db.threads)

-- The thread waits for answers and has a limit, and that many seconds for each of its rounds have
-- passed since it was announced.
pub record IsLate (now : ℕ) (t : Thread) : Type 0 where
  pub waits : (t.status ≡ opened) ⊎ (t.status ≡ resolving)
  pub limited : 0 < t.timeout_seconds
  pub late : to_seconds t.created_at + t.timeout_seconds * t.round < now / 1000

waits_iff : (t : Thread) → (is_active t ≡ true) ↔ ((t.status ≡ opened) ⊎ (t.status ≡ resolving))
waits_iff t = go t.status
  where
    go :
        (s : ThreadStatus)
        → (elim s [ opened ↦ true | resolving ↦ true | _ ↦ false ] ≡ true)
          ↔ ((s ≡ opened) ⊎ (s ≡ resolving))
    go opened = (λ e. inl refl, λ e. refl)
    go resolving = (λ e. inr refl, λ e. refl)
    go resolved = (λ e. cc e, λ h. elim h [ inl e ↦ cc e | inr e ↦ cc e ])
    go cancelled = (λ e. cc e, λ h. elim h [ inl e ↦ cc e | inr e ↦ cc e ])
    go poisoned = (λ e. cc e, λ h. elim h [ inl e ↦ cc e | inr e ↦ cc e ])

is_overdue_iff : (now : ℕ) (t : Thread) → (is_overdue now t ≡ true) ↔ IsLate now t
unfolding is_overdue
is_overdue_iff now t =
    let order =
      text_lt-of_seconds (to_seconds t.created_at + t.timeout_seconds * t.round) (now / 1000) in
    (
      λ h. record {
        waits = (waits_iff t).0 (ground arith);
        limited = ground (arith, h);
        late = ltb→lt _ _ (sym order ∙ ground (arith, h));
      },
      λ l. ground (arith, (waits_iff t).1 l.waits, l.limited, l.late, order),
    )

-- What a sweep makes of a thread.
pub data Swept (now : ℕ) (x y : Thread) : Type 0 where
  closed :
      IsLate now x
      → y ≡ record x {
        status = resolved;
        resolution_summary = some timeout_summary;
        resolved_at = some (current_timestamp now);
      }
      → Swept now x y
  spared : ¬ IsLate now x → y ≡ x → Swept now x y

Swept-rows :
    (now : ℕ) (ts : List Thread)
    → Evolves (Swept now) (λ t. ⊥) ts (update_where (is_overdue now) (time_out now) ts)
unfolding time_out
Swept-rows now [] = tt
Swept-rows now (t ∷ ts) = elim (Bool-cases (is_overdue now t)) [
  | inl e ↦ rw e (Swept.closed ((is_overdue_iff now t).0 e) refl, Swept-rows now ts)
  | inr e ↦
      rw e (Swept.spared (λ l. absurd (cc ((is_overdue_iff now t).1 l, e))) refl, Swept-rows now ts)
]

-- A sweep closes exactly the threads of all organisations that are late, those open or resolving
-- with a limit for which more than limit times round seconds have passed since the announcement: it
-- resolves them with its summary and stamp, and leaves every other thread as it was.
pub timeouts_exact :
    (env : Env) (db : Db)
    → Evolves (Swept env.now) (λ t. ⊥) db.threads (check_timeouts env db).threads
unfolding check_timeouts
timeouts_exact env db =
    subst (Evolves (Swept env.now) (λ t. ⊥) db.threads)
      (sym (threads-emit_all env (select (is_overdue env.now) db.threads) _))
      (Swept-rows env.now db.threads)
