-- ===== src/Audit.antt =====
-- src/security/audit-chain.ts, the writers of src/security/audit.ts and src/security/audit-queue.ts,
-- and the sweeper's deletes on audit_log. node:crypto, JSON.stringify and the connection are
-- arguments; a handler's pair says first whether it returned, false where the exception of a failing
-- transaction leaves it. The actor and the request are read into the row before.
pub mod Verify
pub mod Linked
pub mod Written
pub mod Backfill
pub mod Intact
pub mod Tampering
pub mod Queue
use Prim.Native.String.{◌++◌ as ◌⧺◌}
use mcp_coordinator.Prelude.{
  ℕ, ◌+◌, ◌-◌, ◌*◌, String, Bool, true, false, ◌&&◌, ◌||◌, not, Option, none, some, List, [], ◌∷◌,
  ◌==◌, starts_with, any, is_empty, length, ltb, leb, if◌then◌else◌,
}
use mcp_coordinator.Table.{insert_row}
use mcp_coordinator.Auth.Purge.{delete_limit, batch_size, seconds_per_day}

pub record Crypto : Type 0 where
  -- createHash("sha256") over a text, in hex, and createHmac("sha256", key)
  pub sha256 : String → String
  pub hmac_sha256 : String → String → String
  -- JSON.stringify of an object with these members, and of {dropped_count}
  pub stringify : List (String × Option String) → String
  pub dropped_count : ℕ → String

pub record AuditChainFields : Type 0 where
  pub action : String
  pub actor_org_id : Option String
  pub actor_ip : Option String
  pub actor_user_agent : Option String
  pub actor_user_id : Option String
  pub metadata_json : Option String
  pub outcome : Option String
  pub request_id : Option String
  pub target : Option String

-- A row of audit_log. created_at is in Unix seconds.
pub record AuditRow : Type 0 where
  pub id : ℕ
  pub created_at : ℕ
  pub fields : AuditChainFields
  pub prev_hash : Option String
  pub row_hash : Option String

-- "0".repeat(64)
abbrev pub genesis_hash : String
genesis_hash = "0000000000000000000000000000000000000000000000000000000000000000"

abbrev pub hmac_prefix : String
hmac_prefix = "hmac-sha256-v1:"

-- algorithmOf(h) === ALG_HMAC_V1
abbrev pub is_hmac : String → Bool
is_hmac stored = starts_with stored hmac_prefix

abbrev pub ordered_fields : AuditChainFields → List (String × Option String)
ordered_fields row =
    ("action", some row.action)
    ∷ ("actor_org_id", row.actor_org_id)
    ∷ ("actor_ip", row.actor_ip)
    ∷ ("actor_user_agent", row.actor_user_agent)
    ∷ ("actor_user_id", row.actor_user_id)
    ∷ ("metadata_json", row.metadata_json)
    ∷ ("outcome", row.outcome)
    ∷ ("request_id", row.request_id)
    ∷ ("target", row.target)
    ∷ []

unfoldable pub canonical_row_fields : Crypto → AuditChainFields → String
canonical_row_fields crypto row = crypto.stringify (ordered_fields row)

unfoldable pub compute_row_hash : Crypto → String → AuditChainFields → Option String → String
compute_row_hash crypto prev row none = crypto.sha256 (prev ⧺ canonical_row_fields crypto row)
compute_row_hash crypto prev row (some key) =
    hmac_prefix ⧺ crypto.hmac_sha256 key (prev ⧺ canonical_row_fields crypto row)

-- The table, in the order of its ids, and the id that AUTOINCREMENT hands out next.
pub record AuditLog : Type 0 where
  pub rows : List AuditRow
  pub next_id : ℕ

-- SELECT row_hash … WHERE row_hash IS NOT NULL ORDER BY id DESC LIMIT 1
abbrev pub tip : List AuditRow → Option String
tip [] = none
tip (r ∷ rs) = elim (tip rs) [ some h ↦ some h | none ↦ r.row_hash ]

-- tip?.row_hash ?? GENESIS_HASH
abbrev pub tip_or_genesis : List AuditRow → String
tip_or_genesis rs = elim (tip rs) [ some h ↦ h | none ↦ genesis_hash ]

unfoldable pub insert_hashed : ℕ → AuditChainFields → String → String → AuditLog → AuditLog
insert_hashed now row prev hash log = record {
  rows =
      insert_row
        record {
          id = log.next_id;
          created_at = now;
          fields = row;
          prev_hash = some prev;
          row_hash = some hash;
        }
        log.rows;
  next_id = log.next_id + 1;
}

unfoldable pub insert_audit_row_with_chain :
    Crypto → Option String → ℕ → AuditChainFields → AuditLog → AuditLog
unfolding insert_hashed
insert_audit_row_with_chain crypto key now row log =
    let prev = tip_or_genesis log.rows in
    insert_hashed now row prev (compute_row_hash crypto prev row key) log

-- The loop of writeBatchSync, which reads the tip once and carries the hash from row to row.
unfoldable pub insert_batch :
    Crypto → Option String → ℕ → String → List AuditChainFields → AuditLog → AuditLog
unfolding insert_hashed
insert_batch crypto key now prev [] log = log
insert_batch crypto key now prev (r ∷ rs) log =
    let hash = compute_row_hash crypto prev r key in
    insert_batch crypto key now hash rs (insert_hashed now r prev hash log)

-- What the connection does to a write: it is open, it has been closed, or the transaction throws.
pub data Connection : Type 0 where
  opened : Connection
  shut : Connection
  failing : Connection

unfoldable pub write_batch_sync :
    Crypto → Option String → Connection → ℕ → List AuditChainFields → AuditLog → Bool × AuditLog
unfolding insert_batch
write_batch_sync crypto key shut now rows log = (true, log)
write_batch_sync crypto key failing now rows log = (false, log)
write_batch_sync crypto key opened now rows log =
    (true, insert_batch crypto key now (tip_or_genesis log.rows) rows log)

pub record AuditQueue : Type 0 where
  pub buffer : List AuditChainFields
  pub timer : Bool
  pub enqueued : ℕ
  pub flushed : ℕ
  pub dropped : ℕ
  pub batches_written : ℕ
  pub closed : Bool

abbrev pub new_queue : AuditQueue
new_queue = record {
  buffer = [];
  timer = false;
  enqueued = 0;
  flushed = 0;
  dropped = 0;
  batches_written = 0;
  closed = false;
}

abbrev pub queue_capacity : ℕ
queue_capacity = 10000

abbrev pub flush_size : ℕ
flush_size = 50

abbrev pub emptied : AuditQueue → AuditQueue
emptied q = record q { buffer = []; timer = false }

abbrev pub count_batch : AuditQueue → AuditQueue
count_batch q = record (emptied q) {
  flushed = q.flushed + length q.buffer;
  batches_written = q.batches_written + 1;
}

unfoldable pub flush :
    Crypto → Option String → Connection → ℕ → AuditQueue → AuditLog → Bool × AuditQueue × AuditLog
unfolding write_batch_sync
flush crypto key db now q log =
    let written = write_batch_sync crypto key db now q.buffer log in
    if is_empty q.buffer then (true, record q { timer = false }, log) else elim db [
      | shut ↦ (true, emptied q, log)
      | failing ↦ (written.0, emptied q, written.1)
      | opened ↦ (written.0, count_batch q, written.1)
    ]

abbrev pub push : AuditChainFields → AuditQueue → AuditQueue
push row q = record q { buffer = insert_row row q.buffer; enqueued = q.enqueued + 1 }

unfoldable pub enqueue :
    Crypto
    → Option String
    → Connection
    → ℕ
    → AuditChainFields
    → AuditQueue
    → AuditLog
    → Bool × AuditQueue × AuditLog
unfolding flush write_batch_sync
enqueue crypto key db now row q log =
    let (returned, log') = write_batch_sync crypto key db now (row ∷ []) log in
    if q.closed
    then (returned, (if returned then record q { flushed = q.flushed + 1 } else q), log')
    else if leb queue_capacity (length q.buffer)
    then (true, record q { dropped = q.dropped + 1 }, log)
    else if leb flush_size (length (push row q).buffer)
    then flush crypto key db now (push row q) log
    else (true, record (push row q) { timer = true }, log)

abbrev pub loss_fields : Crypto → ℕ → AuditChainFields
loss_fields crypto n = record {
  action = "system.shutdown.audit_loss";
  actor_org_id = none;
  actor_ip = none;
  actor_user_agent = none;
  actor_user_id = none;
  metadata_json = some (crypto.dropped_count n);
  outcome = some "failure";
  request_id = none;
  target = none;
}

-- The final row; what its transaction throws is swallowed, as on a closed database.
unfoldable pub write_loss : Crypto → Option String → Connection → ℕ → ℕ → AuditLog → AuditLog
unfolding insert_audit_row_with_chain
write_loss crypto key opened now n log =
    if ltb 0 n then insert_audit_row_with_chain crypto key now (loss_fields crypto n) log else log
write_loss crypto key shut now n log = log
write_loss crypto key failing now n log = log

unfoldable pub drain :
    Crypto → Option String → Connection → ℕ → AuditQueue → AuditLog → Bool × AuditQueue × AuditLog
unfolding flush write_loss
drain crypto key db now q log =
    let (returned, q', log') = flush crypto key db now q log in
    if q.closed
    then (true, q, log)
    else if returned
    then (true, record q' { closed = true }, write_loss crypto key db now q'.dropped log')
    else (false, q', log')

-- DELETE FROM audit_log WHERE created_at is before the cutoff AND action IN (…) LIMIT 1000
unfoldable pub purge_audit : ℕ → ℕ → List String → AuditLog → AuditLog
unfolding delete_limit
purge_audit now retention_days events log =
    let cutoff = now - retention_days * seconds_per_day in
    record log {
      rows =
          delete_limit batch_size
            (λ (r : AuditRow). ltb r.created_at cutoff && any (λ e. e == r.fields.action) events)
            log.rows;
    }

-- The process: _auditQueue, which is null until initAuditQueue, and the table.
pub record Process : Type 0 where
  pub queue : Option AuditQueue
  pub log : AuditLog

unfoldable pub write_now :
    Crypto → Option String → Connection → ℕ → AuditChainFields → AuditLog → Bool × AuditLog
unfolding insert_audit_row_with_chain
write_now crypto key opened now row log = (true, insert_audit_row_with_chain crypto key now row log)
write_now crypto key shut now row log = (false, log)
write_now crypto key failing now row log = (false, log)

-- audit() of the tier, 1 or else 2.
unfoldable pub audit :
    Crypto → Option String → Connection → ℕ → Bool → AuditChainFields → Process → Bool × Process
unfolding write_now enqueue
audit crypto key db now first_tier row p =
    let direct = write_now crypto key db now row p.log in
    elim p.queue [
      | none ↦ (direct.0, record p { log = direct.1 })
      | some q ↦
          let (returned, q', log') = enqueue crypto key db now row q p.log in
          if first_tier
          then (direct.0, record p { log = direct.1 })
          else (returned, record { queue = some q'; log = log' })
    ]

-- What happens to the log, each with the state of the connection and the second.
pub data Act : Type 0 where
  said : Bool → AuditChainFields → Act
  ticked : Act
  drained : Act
  purged : ℕ → List String → Act

unfoldable pub act : Crypto → Option String → Connection → ℕ → Act → Process → Process
unfolding audit flush drain purge_audit
act crypto key db now (said first_tier row) p = (audit crypto key db now first_tier row p).1
act crypto key db now ticked p = elim p.queue [
  | none ↦ p
  | some q ↦
      let (returned, q', log') = flush crypto key db now q p.log in
      record { queue = some q'; log = log' }
]
act crypto key db now drained p = elim p.queue [
  | none ↦ p
  | some q ↦
      let (returned, q', log') = drain crypto key db now q p.log in
      record { queue = some q'; log = log' }
]
act crypto key db now (purged days events) p = record p { log = purge_audit now days events p.log }

unfoldable pub acts : Crypto → Option String → List (Connection × (ℕ × Act)) → Process → Process
unfolding act
acts crypto key [] p = p
acts crypto key ((db, (now, a)) ∷ rest) p = acts crypto key rest (act crypto key db now a p)
