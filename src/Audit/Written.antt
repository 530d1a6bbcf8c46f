-- ===== src/Audit/Written.antt =====
-- Each writer of src/security, and the sweeper, on a sound log.
use mcp_coordinator.Prelude.{
  ℕ, ◌+◌, ◌<◌, String, ◌≡◌, refl, sym, ap, subst, ◌∙◌, inl, inr, Bool, true, false, Option, none,
  some, List, [], ◌∷◌, All-append, All-of_Mem, Memᴰ, All-Mem, arith, is_empty, leb, length,
  if◌then◌else◌, Bool-cases, Option-cases, ltb,
}
use mcp_coordinator.Audit.{
  genesis_hash, Crypto, AuditChainFields, AuditRow, AuditLog, AuditQueue, Connection, opened, shut,
  failing, Process, Act, said, ticked, drained, purged, is_hmac, compute_row_hash, tip_or_genesis,
  insert_hashed, insert_audit_row_with_chain, insert_batch, write_batch_sync, flush, enqueue, push,
  queue_capacity, flush_size, drain, write_loss, loss_fields, write_now, audit, act, acts,
  purge_audit,
}
use mcp_coordinator.Audit.Linked.{
  is_keyed, Follows, Chained-append, tip-append, key_of, IsHashed, IsSound, IsSound-delete,
  tip_exact, keyed_hash,
}

module _ (crypto : Crypto) (k : String) (plain : (s : String) → is_hmac (crypto.sha256 s) ≡ false)
    (used : Bool) where
  abbrev Sound : AuditLog → Type 0
  Sound = IsSound crypto k used

  abbrev key : Option String
  key = key_of crypto k used

  abbrev hash_of : AuditChainFields → AuditLog → String
  hash_of row log = compute_row_hash crypto (tip_or_genesis log.rows) row key

  abbrev next_row : ℕ → AuditChainFields → AuditLog → AuditRow
  next_row now row log = record {
    id = log.next_id;
    created_at = now;
    fields = row;
    prev_hash = some (tip_or_genesis log.rows);
    row_hash = some (hash_of row log);
  }

  follows :
      (now : ℕ) (row : AuditChainFields) (log : AuditLog)
      → Sound log
      → {r : AuditRow} → Memᴰ r log.rows
      → Follows r (next_row now row log)
  follows now row log s {r} m = record {
    later = All-Mem (λ q. q.id < log.next_id) s.below m;
    linked = λ e.
        let g : Option String → Option String =
          λ o. some (elim o [ some h ↦ h | none ↦ genesis_hash ]) in
        let there = (All-Mem (IsHashed crypto k) s.hashed m).hash_there in
        let found = tip_exact crypto k log.next_id log.rows s.hashed s.chained s.below m e in
        ap g (found ∙ there) ∙ sym there;
    kept = λ e.
        keyed_hash crypto k plain (tip_or_genesis log.rows) row used
        ∙ All-Mem (λ q. is_keyed q ≡ true → used ≡ true) s.within m e;
  }

  Sound-insert :
      (now : ℕ) (row : AuditChainFields) (log : AuditLog)
      → Sound log
      → Sound (insert_hashed now row (tip_or_genesis log.rows) (hash_of row log) log)
  unfolding insert_hashed
  Sound-insert now row log s = record {
    hashed = All-append (IsHashed crypto k) log.rows (next_row now row log ∷ []) s.hashed (
      record { prev = tip_or_genesis log.rows; keyed = used; prev_there = refl; hash_there = refl },
      tt,
    );
    chained = Chained-append (next_row now row log) log.rows s.chained (
        All-of_Mem (λ q. Follows q (next_row now row log)) log.rows
          (λ r m. follows now row log s m));
    below =
        All-append (λ r. r.id < log.next_id + 1) log.rows (next_row now row log ∷ [])
          (All-of_Mem (λ r. r.id < log.next_id + 1) log.rows
            (λ r m. omega (arith, All-Mem (λ q. q.id < log.next_id) s.below m)))
          (omega arith, tt);
    within =
        All-append (λ r. is_keyed r ≡ true → used ≡ true) log.rows (next_row now row log ∷ [])
          s.within
          (λ e. sym (keyed_hash crypto k plain (tip_or_genesis log.rows) row used) ∙ e, tt);
  }

  Sound-row :
      (now : ℕ) (row : AuditChainFields) (log : AuditLog)
      → Sound log
      → Sound (insert_audit_row_with_chain crypto key now row log)
  unfolding insert_audit_row_with_chain
  Sound-row now row log s = Sound-insert now row log s

  Sound-batch :
      (now : ℕ) (prev : String) (rows : List AuditChainFields) (log : AuditLog)
      → prev ≡ tip_or_genesis log.rows
      → Sound log
      → Sound (insert_batch crypto key now prev rows log)
  unfolding insert_batch insert_hashed
  Sound-batch now prev [] log e s = s
  Sound-batch now prev (row ∷ rows) log e s =
      subst (λ p. Sound (insert_batch crypto key now p (row ∷ rows) log)) (sym e)
        (Sound-batch now (hash_of row log) rows
          (insert_hashed now row (tip_or_genesis log.rows) (hash_of row log) log)
          (sym (
            ap (λ o. elim o [ some h ↦ h | none ↦ genesis_hash ])
              (tip-append (next_row now row log) (hash_of row log) log.rows refl)))
          (Sound-insert now row log s))

  Sound-write :
      (db : Connection) (now : ℕ) (rows : List AuditChainFields) (log : AuditLog)
      → Sound log
      → Sound (write_batch_sync crypto key db now rows log).1
  unfolding write_batch_sync
  Sound-write shut now rows log s = s
  Sound-write failing now rows log s = s
  Sound-write opened now rows log s = Sound-batch now (tip_or_genesis log.rows) rows log refl s

  -- What a step of the queue leaves.
  abbrev Ends : {Q : Type 0} → Bool × Q × AuditLog → Type 0
  Ends x = Sound x.2

  Ends-if :
      {Q : Type 0} (b : Bool) (x y : Bool × Q × AuditLog)
      → Ends x
      → Ends y
      → Ends (if b then x else y)
  Ends-if true x y ex ey = ex
  Ends-if false x y ex ey = ey

  Sound-flush :
      (db : Connection) (now : ℕ) (q : AuditQueue) (log : AuditLog)
      → Sound log
      → Ends (flush crypto key db now q log)
  unfolding flush
  Sound-flush shut now q log s = Ends-if (is_empty q.buffer) _ _ s s
  Sound-flush failing now q log s =
      Ends-if (is_empty q.buffer) _ _ s (Sound-write failing now q.buffer log s)
  Sound-flush opened now q log s =
      Ends-if (is_empty q.buffer) _ _ s (Sound-write opened now q.buffer log s)

  Sound-enqueue :
      (db : Connection) (now : ℕ) (row : AuditChainFields) (q : AuditQueue) (log : AuditLog)
      → Sound log
      → Ends (enqueue crypto key db now row q log)
  unfolding enqueue
  Sound-enqueue db now row q log s = Ends-if q.closed _ _ (Sound-write db now (row ∷ []) log s) (
      Ends-if (leb queue_capacity (length q.buffer)) _ _ s (
        Ends-if (leb flush_size (length (push row q).buffer)) _ _
          (Sound-flush db now (push row q) log s) s))

  Sound-write_loss :
      (db : Connection) (now n : ℕ) (log : AuditLog)
      → Sound log
      → Sound (write_loss crypto key db now n log)
  unfolding write_loss
  Sound-write_loss shut now n log s = s
  Sound-write_loss failing now n log s = s
  Sound-write_loss opened now n log s = elim (Bool-cases (ltb 0 n)) [
    | inl e ↦ rw (e, write_loss) (Sound-row now (loss_fields crypto n) log s)
    | inr e ↦ rw (e, write_loss) s
  ]

  Sound-drain :
      (db : Connection) (now : ℕ) (q : AuditQueue) (log : AuditLog)
      → Sound log
      → Ends (drain crypto key db now q log)
  unfolding drain
  Sound-drain db now q log s =
      let f = flush crypto key db now q log in
      let sf = Sound-flush db now q log s in
      Ends-if q.closed _ _ s (Ends-if f.0 _ _ (Sound-write_loss db now f.1.dropped f.2 sf) sf)

  Sound-write_now :
      (db : Connection) (now : ℕ) (row : AuditChainFields) (log : AuditLog)
      → Sound log
      → Sound (write_now crypto key db now row log).1
  unfolding write_now
  Sound-write_now opened now row log s = Sound-row now row log s
  Sound-write_now shut now row log s = s
  Sound-write_now failing now row log s = s

  Sound-audit :
      (db : Connection) (now : ℕ) (first_tier : Bool) (row : AuditChainFields) (p : Process)
      → Sound p.log
      → Sound (audit crypto key db now first_tier row p).1.log
  unfolding audit
  Sound-audit db now first_tier row p s = elim (Option-cases p.queue) [
    | inl e ↦ rw (e, audit) (Sound-write_now db now row p.log s)
    | inr (q, e) ↦ elim (Bool-cases first_tier) [
      | inl t ↦ rw (e, t, audit) (Sound-write_now db now row p.log s)
      | inr t ↦ rw (e, t, audit) (Sound-enqueue db now row q p.log s)
    ]
  ]

  Sound-act :
      (db : Connection) (now : ℕ) (a : Act) (p : Process)
      → Sound p.log
      → Sound (act crypto key db now a p).log
  unfolding act purge_audit
  Sound-act db now (said first_tier row) p s = Sound-audit db now first_tier row p s
  Sound-act db now ticked p s = elim (Option-cases p.queue) [
    | inl e ↦ rw (e, act) s
    | inr (q, e) ↦ rw (e, act) (Sound-flush db now q p.log s)
  ]
  Sound-act db now drained p s = elim (Option-cases p.queue) [
    | inl e ↦ rw (e, act) s
    | inr (q, e) ↦ rw (e, act) (Sound-drain db now q p.log s)
  ]
  Sound-act db now (purged days events) p s = IsSound-delete crypto k used _ _ p.log s

  pub Sound-acts :
      (es : List (Connection × (ℕ × Act))) (p : Process)
      → IsSound crypto k used p.log
      → IsSound crypto k used (acts crypto (key_of crypto k used) es p).log
  unfolding acts
  Sound-acts [] p s = s
  Sound-acts ((db, (now, a)) ∷ rest) p s =
      Sound-acts rest (act crypto key db now a p) (Sound-act db now a p s)
