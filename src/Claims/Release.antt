-- ===== src/Claims/Release.antt =====
-- What handleUnclaimTask does, on every branch.
use mcp_coordinator.Prelude.{
  ◌+◌, ◌≡◌, ◌≢◌, ◌⊎◌, refl, sym, ap, subst, ◌∙◌, inl, inr, String, Bool, true, false, ◌&&◌, List,
  [], ◌∷◌, Option, none, some, eq_iff, eq_refl, any, any_of_Mem, any_witness, equals, leb, arith,
  Memᴰ, head, tail, Bool-cases, if◌then◌else◌,
}
use mcp_coordinator.Table.{find_row, find_row-Mem, find_row-update_where, update_where}
use mcp_coordinator.Store.{
  Db, Thread, ThreadStatus, opened, resolving, resolved, cancelled, poisoned, is_opened, keyed,
  get_thread,
}
use mcp_coordinator.Claims.{
  UnclaimReply, unclaimable, unclaimed, poison_worn_out, handle_unclaim_task,
}
use mcp_coordinator.Lifecycle.Keys.{IsKeyed, Distinct, ids-update_where, keyed_unique}

-- The row of an open thread whose holder gives it up: the second time it is poisoned.
abbrev pub given_up : Thread → Thread
given_up t = record t {
  claimed_by = none;
  claimed_at = none;
  unclaim_count = t.unclaim_count + 1;
  status = if leb 2 (t.unclaim_count + 1) then poisoned else opened;
}

same_rows :
    (p q : Thread → Bool) (f g : Thread → Thread) (ts : List Thread)
    → ((x : Thread) → Memᴰ x ts → (if p x then f x else x) ≡ (if q x then g x else x))
    → update_where p f ts ≡ update_where q g ts
same_rows p q f g [] h = refl
same_rows p q f g (t ∷ ts) h = cc (h t (head refl), same_rows p q f g ts (λ x m. h x (tail m)))

-- Of two statements on the rows of a key, the second decides.
set_twice :
    (p : Thread → Bool) (a b : Thread) (ts : List Thread)
    → p a ≡ true
    → update_where p (λ x. b) (update_where p (λ x. a) ts) ≡ update_where p (λ x. b) ts
set_twice p a b [] h = refl
set_twice p a b (t ∷ ts) h = elim (Bool-cases (p t)) [
  | inl e ↦ rw (e, h) (ap (λ rest. b ∷ rest) (set_twice p a b ts h))
  | inr e ↦ rw (e, e) (ap (λ rest. t ∷ rest) (set_twice p a b ts h))
]

-- A statement that reaches at most the rows of a key, and that of the thread, changes the latter.
set_row :
    (org id : String) (q : Thread → Bool) (f : Thread → Thread) (ts : List Thread) {t : Thread}
    → IsKeyed ts
    → find_row (keyed org id) ts ≡ some t
    → ((x : Thread) → q x ≡ true → keyed org id x ≡ true)
    → q t ≡ true
    → update_where q f ts ≡ update_where (keyed org id) (λ x. f t) ts
set_row org id q f ts {t} k found within h =
    same_rows q (keyed org id) f (λ x. f t) ts
      (λ x m. elim (Bool-cases (keyed org id x)) [
        | inl e ↦
            let same : x ≡ t = keyed_unique org id ts k found m e in
            let passes : q x ≡ true = ap q same ∙ h in rw (e, passes) (ap f same)
        | inr e ↦ elim (Bool-cases (q x)) [
          | inl p ↦ absurd (cc (within x p, e))
          | inr p ↦ rw (e, p) refl
        ]
      ])

none_set : (f : Thread → Thread) (ts : List Thread) → update_where (λ x. false) f ts ≡ ts
none_set f [] = refl
none_set f (t ∷ ts) = ap (λ rest. t ∷ rest) (none_set f ts)

set_same :
    (org id : String) (v : Thread) (ts : List Thread)
    → IsKeyed ts
    → find_row (keyed org id) ts ≡ some v
    → update_where (keyed org id) (λ x. v) ts ≡ ts
set_same org id v ts k found =
    same_rows (keyed org id) (λ x. false) (λ x. v) (λ x. x) ts
      (λ x m. elim (Bool-cases (keyed org id x)) [
        | inr e ↦ rw e refl
        | inl e ↦ rw e (sym (keyed_unique org id ts k found m e))
      ])
    ∙ none_set (λ x. x) ts

-- The poisoning that may follow the UPDATE of the claim, on the table as that leaves it.
poisoned_or_not :
    (org id : String) (db : Db) {u : Thread}
    → IsKeyed db.threads
    → get_thread org id db ≡ some u
    → u.status ≡ opened
    → poison_worn_out org id db ≡ (
      record { success = true; poisoned = leb 2 u.unclaim_count },
      record db {
        threads =
            update_where
              (keyed org id)
              (λ x. record u { status = if leb 2 u.unclaim_count then poisoned else opened })
              db.threads;
      },
    )
unfolding poison_worn_out
poisoned_or_not org id db {u} k found op = elim (Bool-cases (leb 2 u.unclaim_count)) [
  | inl e ↦
      let closed =
        set_row org id (λ t. keyed org id t && is_opened t) (λ t. record t { status = poisoned })
          db.threads k found (λ x p. ground arith)
          (rw ((find_row-Mem (keyed org id) db.threads found).1, op) refl) in
      rw (found, e, poison_worn_out) (ap (λ ts. (won, record db { threads = ts })) closed)
  | inr e ↦
      let same : record u { status = opened } ≡ u = rw (← op) refl in
      let kept =
        ap (λ v. update_where (keyed org id) (λ x. v) db.threads) same
        ∙ set_same org id u db.threads k found in
      rw (found, e, poison_worn_out) (ap (λ ts. (lost, record db { threads = ts })) (sym kept))
]
  where
    won : UnclaimReply
    won = record { success = true; poisoned = true }

    lost : UnclaimReply
    lost = record { success = true; poisoned = false }

held_by : (o : Option String) (agent : String) → equals o agent ≡ true → o ≡ some agent
held_by none agent e = cc e
held_by (some a) agent e = ap some ((eq_iff a agent).0 e)

at_opened : (s : ThreadStatus) → elim s [ opened ↦ true | _ ↦ false ] ≡ true → s ≡ opened
at_opened opened e = refl
at_opened resolving e = cc e
at_opened resolved e = cc e
at_opened cancelled e = cc e
at_opened poisoned e = cc e

-- Where the ids are distinct, an agent that holds an open thread gives it up: the row alone changes,
-- it is claimed by nobody, its count goes up, and it is poisoned if that makes two, as the reply
-- says. Of a thread that is not open or that it does not hold nothing changes.
pub unclaim_exact :
    (org id agent : String) (db : Db) {t : Thread}
    → IsKeyed db.threads
    → get_thread org id db ≡ some t
    → let reply_and_db = handle_unclaim_task org id agent db in
      ((t.claimed_by ≡ some agent)
        × (t.status ≡ opened)
        × (reply_and_db ≡ (
          record { success = true; poisoned = leb 2 (t.unclaim_count + 1) },
          record db { threads = update_where (keyed org id) (λ x. given_up t) db.threads },
        )))
      ⊎ (((t.claimed_by ≢ some agent) ⊎ (t.status ≢ opened))
          × (reply_and_db ≡ (record { success = false; poisoned = false }, db)))
unfolding handle_unclaim_task
unclaim_exact org id agent db {t} k found = elim (Bool-cases (equals t.claimed_by agent)) [
  | inr e ↦
      let n : t.claimed_by ≢ some agent = λ same. absurd (cc (rw same at e, eq_refl agent)) in
      inr (inl n, other (inl n))
  | inl e ↦ elim (Bool-cases (is_opened t)) [
    | inl f ↦
        let by = held_by t.claimed_by agent e in
        let op = at_opened t.status f in inl (by, op, held by op)
    | inr f ↦
        let n : t.status ≢ opened = λ same. absurd (cc (rw same at f)) in inr (inr n, other (inr n))
  ]
]
  where
    row_key : Memᴰ t db.threads × (keyed org id t ≡ true)
    row_key = find_row-Mem (keyed org id) db.threads found

    held :
        t.claimed_by ≡ some agent
        → t.status ≡ opened
        → handle_unclaim_task org id agent db ≡ (
          record { success = true; poisoned = leb 2 (t.unclaim_count + 1) },
          record db { threads = update_where (keyed org id) (λ x. given_up t) db.threads },
        )
    held by op =
        let hit : unclaimable org id agent t ≡ true = rw (row_key.1, by, op, eq_refl agent) refl in
        let db' : Db = record db {
          threads = update_where (unclaimable org id agent) unclaimed db.threads;
        } in
        let keys : IsKeyed db'.threads =
          subst Distinct
            (sym (ids-update_where (unclaimable org id agent) unclaimed db.threads (λ x. refl)))
            k in
        let there : get_thread org id db' ≡ some (unclaimed t) =
          find_row-update_where (keyed org id) (unclaimable org id agent) unclaimed db.threads
            (λ x. refl)
          ∙ rw (found, hit) refl in
        let first =
          set_row org id (unclaimable org id agent) unclaimed db.threads k found
            (λ x p. ground arith) hit in
        let both =
          ap (update_where (keyed org id) (λ x. given_up t)) first
          ∙ set_twice (keyed org id) (unclaimed t) (given_up t) db.threads row_key.1 in
        rw (any_of_Mem (unclaimable org id agent) row_key.0 hit, handle_unclaim_task)
          (poisoned_or_not org id db' keys there op
            ∙ ap
                (λ ts. (
                  record { success = true; poisoned = leb 2 (t.unclaim_count + 1) },
                  record db { threads = ts },
                ))
                both)

    other :
        (t.claimed_by ≢ some agent) ⊎ (t.status ≢ opened)
        → handle_unclaim_task org id agent db ≡ (record { success = false; poisoned = false }, db)
    other h = elim (Bool-cases (any (unclaimable org id agent) db.threads)) [
      | inr none_mine ↦ rw (none_mine, handle_unclaim_task) refl
      | inl found_one ↦
          let (x, m, p) = any_witness (unclaimable org id agent) db.threads found_one in
          let same : x ≡ t = keyed_unique org id db.threads k found m (ground arith) in
          let p' : unclaimable org id agent t ≡ true =
            ap (unclaimable org id agent) (sym same) ∙ p in
          elim h [
            | inl n ↦ absurd (n (held_by t.claimed_by agent (ground arith)))
            | inr n ↦ absurd (n (at_opened t.status (ground arith)))
          ]
    ]
