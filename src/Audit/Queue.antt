-- ===== src/Audit/Queue.antt =====
-- The bound of src/security/audit-queue.ts over a whole history.
use mcp_coordinator.Prelude.{
  ℕ, ◌+◌, ◌<◌, String, ◌≡◌, refl, Bool, true, false, Option, some, List, [], ◌∷◌, arith, is_empty,
  leb, leb→le, length, if◌then◌else◌,
}
use mcp_coordinator.Audit.{
  Crypto, AuditChainFields, AuditLog, AuditQueue, Connection, opened, shut, failing, Process, Act,
  said, ticked, drained, purged, new_queue, write_batch_sync, flush, enqueue, push, queue_capacity,
  flush_size, drain, audit, act, acts,
}

abbrev pub IsShort : AuditQueue → Type 0
IsShort q = (q.dropped ≡ 0) × (length q.buffer < flush_size)

abbrev Leaves : Bool × AuditQueue × AuditLog → Type 0
Leaves x = IsShort x.1

Leaves-if :
    (b : Bool) (x y : Bool × AuditQueue × AuditLog)
    → (b ≡ true → Leaves x)
    → (b ≡ false → Leaves y)
    → Leaves (if b then x else y)
Leaves-if true x y hx hy = hx refl
Leaves-if false x y hx hy = hy refl

none_left : (rows : List AuditChainFields) → is_empty rows ≡ true → length rows < flush_size
none_left [] b = omega arith
none_left (r ∷ rs) b = cc b

-- The queue is there and short.
abbrev Holds : Process → Type 0
Holds p = (q : AuditQueue) × (p.queue ≡ some q) × IsShort q

module _ (crypto : Crypto) (key : Option String) where
  -- A flush empties the buffer, whatever becomes of the rows.
  IsShort-flush :
      (db : Connection) (now : ℕ) (q : AuditQueue) (log : AuditLog)
      → q.dropped ≡ 0
      → Leaves (flush crypto key db now q log)
  unfolding flush
  IsShort-flush shut now q log e =
      Leaves-if (is_empty q.buffer) _ _ (λ b. (e, none_left q.buffer b)) (λ b. (e, omega arith))
  IsShort-flush failing now q log e =
      Leaves-if (is_empty q.buffer) _ _ (λ b. (e, none_left q.buffer b)) (λ b. (e, omega arith))
  IsShort-flush opened now q log e =
      Leaves-if (is_empty q.buffer) _ _ (λ b. (e, none_left q.buffer b)) (λ b. (e, omega arith))

  count_flushed :
      (b : Bool) (q : AuditQueue)
      → IsShort q
      → IsShort (if b then record q { flushed = q.flushed + 1 } else q)
  count_flushed true q h = h
  count_flushed false q h = h

  IsShort-enqueue :
      (db : Connection) (now : ℕ) (row : AuditChainFields) (q : AuditQueue) (log : AuditLog)
      → IsShort q
      → Leaves (enqueue crypto key db now row q log)
  unfolding enqueue
  IsShort-enqueue db now row q log h =
      Leaves-if q.closed _ _
        (λ b. count_flushed (write_batch_sync crypto key db now (row ∷ []) log).0 q h)
        (λ b.
          Leaves-if (leb queue_capacity (length q.buffer)) _ _
            (λ full. absurd (omega (arith, h.1, leb→le queue_capacity (length q.buffer) full)))
            (λ room.
              Leaves-if (leb flush_size (length (push row q).buffer)) _ _
                (λ due. IsShort-flush db now (push row q) log h.0)
                (λ short. (h.0, ground (arith, short)))))

  IsShort-drain :
      (db : Connection) (now : ℕ) (q : AuditQueue) (log : AuditLog)
      → IsShort q
      → Leaves (drain crypto key db now q log)
  unfolding drain
  IsShort-drain db now q log h =
      let f = IsShort-flush db now q log h.0 in
      Leaves-if q.closed _ _ (λ b. h)
        (λ b. Leaves-if (flush crypto key db now q log).0 _ _ (λ c. f) (λ c. f))

  Holds-audit :
      (db : Connection) (now : ℕ) (first_tier : Bool) (row : AuditChainFields) (p : Process)
      → Holds p
      → Holds (audit crypto key db now first_tier row p).1
  unfolding audit
  Holds-audit db now true row p (q, e, h) = rw (e, audit) (q, e, h)
  Holds-audit db now false row p (q, e, h) =
      let x = enqueue crypto key db now row q p.log in
      rw (e, audit) (x.1, refl, IsShort-enqueue db now row q p.log h)

  Holds-act :
      (db : Connection) (now : ℕ) (a : Act) (p : Process)
      → Holds p
      → Holds (act crypto key db now a p)
  unfolding act
  Holds-act db now (said first_tier row) p h = Holds-audit db now first_tier row p h
  Holds-act db now ticked p (q, e, h) =
      rw (e, act) ((flush crypto key db now q p.log).1, refl, IsShort-flush db now q p.log h.0)
  Holds-act db now drained p (q, e, h) =
      rw (e, act) ((drain crypto key db now q p.log).1, refl, IsShort-drain db now q p.log h)
  Holds-act db now (purged days events) p h = h

  Holds-acts :
      (es : List (Connection × (ℕ × Act))) (p : Process) → Holds p → Holds (acts crypto key es p)
  unfolding acts
  Holds-acts [] p h = h
  Holds-acts ((db, (now, a)) ∷ rest) p h =
      Holds-acts rest (act crypto key db now a p) (Holds-act db now a p h)

  -- The queue never counts a dropped row: after any history, with the connection open, shut or
  -- failing, what was a new queue holds fewer rows than a flush takes and has dropped none.
  pub never_drops :
      (es : List (Connection × (ℕ × Act))) (log : AuditLog)
      → (q : AuditQueue) × ((acts crypto key es record { queue = some new_queue; log = log }).queue
          ≡ some q)
        × IsShort q
  never_drops es log =
      Holds-acts es record { queue = some new_queue; log = log }
        (new_queue, refl, (refl, omega arith))
