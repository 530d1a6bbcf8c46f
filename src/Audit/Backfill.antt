-- ===== src/Audit/Backfill.antt =====
-- backfillAuditChain of src/database.ts, which hashes the rows of a table from before the chain.
use mcp_coordinator.Prelude.{
  ℕ, suc, ◌<◌, String, ◌≡◌, refl, sym, true, false, none, some, List, [], ◌∷◌, All, arith,
}
use mcp_coordinator.Audit.{Crypto, AuditRow, AuditLog, is_hmac, compute_row_hash, tip_or_genesis}
use mcp_coordinator.Audit.Linked.{is_keyed, Follows, Chained, IsHashed, IsSound, keyed_hash}

abbrev pub hashed_row : Crypto → String → AuditRow → AuditRow
hashed_row crypto prev r = record r {
  prev_hash = some prev;
  row_hash = some (compute_row_hash crypto prev r.fields none);
}

-- The loop over the rows without a hash, each updated under its id.
unfoldable pub backfill_from : Crypto → String → List AuditRow → List AuditRow
backfill_from crypto prev [] = []
backfill_from crypto prev (r ∷ rs) =
    let kept = backfill_from crypto prev rs in
    let chained = backfill_from crypto (compute_row_hash crypto prev r.fields none) rs in
    elim r.row_hash [ some h ↦ r ∷ kept | none ↦ hashed_row crypto prev r ∷ chained ]

unfoldable pub backfill_audit_chain : Crypto → AuditLog → AuditLog
unfolding backfill_from
backfill_audit_chain crypto log = record log {
  rows = backfill_from crypto (tip_or_genesis log.rows) log.rows;
}

-- The ids go up.
abbrev pub Ascending : List AuditRow → Type 0
Ascending [] = Unit
Ascending (r ∷ rs) = All (λ (s : AuditRow). r.id < s.id) rs × Ascending rs

-- A table from before the chain: no hashes, and ids that go up to the next one.
pub record IsLegacy (log : AuditLog) : Type 0 where
  pub bare : All (λ (r : AuditRow). r.row_hash ≡ none) log.rows
  pub ascending : Ascending log.rows
  pub below : All (λ (r : AuditRow). r.id < log.next_id) log.rows

module _ (crypto : Crypto) (k : String)
    (plain : (s : String) → is_hmac (crypto.sha256 s) ≡ false) where
  abbrev Bare : List AuditRow → Type 0
  Bare = All (λ (r : AuditRow). r.row_hash ≡ none)

  unkeyed : (prev : String) (r : AuditRow) → is_keyed (hashed_row crypto prev r) ≡ false
  unkeyed prev r = keyed_hash crypto k plain prev r.fields false

  -- What holds of each row however it is hashed holds of all.
  All-backfill :
      (Q P : AuditRow → Type 0) (prev : String) (rs : List AuditRow)
      → Bare rs
      → All Q rs
      → ((r : AuditRow) (p : String) → Q r → P (hashed_row crypto p r))
      → All P (backfill_from crypto prev rs)
  unfolding backfill_from
  All-backfill Q P prev [] b q h = tt
  All-backfill Q P prev (r ∷ rs) b q h =
      rw (b.0, backfill_from)
        (h r prev q.0, All-backfill Q P (compute_row_hash crypto prev r.fields none) rs b.1 q.1 h)

  All-beyond :
      (m n : ℕ) (rs : List AuditRow)
      → m < n
      → All (λ (s : AuditRow). n < s.id) rs
      → All (λ (s : AuditRow). suc m < s.id) rs
  All-beyond m n [] le h = tt
  All-beyond m n (s ∷ ss) le h = (omega (arith, le, h.0), All-beyond m n ss le h.1)

  All-Follows :
      (q : AuditRow) (hash : String) (rs : List AuditRow)
      → q.row_hash ≡ some hash
      → is_keyed q ≡ false
      → Bare rs
      → Ascending (q ∷ rs)
      → All (Follows q) (backfill_from crypto hash rs)
  unfolding backfill_from
  All-Follows q hash [] there bare_q b up = tt
  All-Follows q hash (s ∷ ss) there bare_q b up =
      rw (b.0, backfill_from)
        (
          record { later = up.0.0; linked = λ e. sym there; kept = λ e. cc (e, bare_q) },
          All-backfill (λ (t : AuditRow). suc q.id < t.id) (Follows q)
              (compute_row_hash crypto hash s.fields none) ss b.1
              (All-beyond q.id s.id ss up.0.0 up.1.0)
              (λ r p far. record {
                later = omega (arith, far);
                linked = λ e. absurd (omega (arith, far, e));
                kept = λ e. cc (e, bare_q);
              }),
        )

  Chained-backfill :
      (prev : String) (rs : List AuditRow)
      → Bare rs
      → Ascending rs
      → Chained (backfill_from crypto prev rs)
  unfolding backfill_from
  Chained-backfill prev [] b up = tt
  Chained-backfill prev (r ∷ rs) b up =
      let hash = compute_row_hash crypto prev r.fields none in
      rw (b.0, backfill_from)
        (
          All-Follows (hashed_row crypto prev r) hash rs refl (unkeyed prev r) b.1 up,
          Chained-backfill hash rs b.1 up.1,
        )

  pub IsSound-backfill :
      (log : AuditLog) → IsLegacy log → IsSound crypto k false (backfill_audit_chain crypto log)
  unfolding backfill_audit_chain
  IsSound-backfill log l =
      let prev = tip_or_genesis log.rows in
      record {
        hashed =
            All-backfill (λ r. r.id < log.next_id) (IsHashed crypto k) prev log.rows l.bare l.below
              (λ r p h. record { prev = p; keyed = false; prev_there = refl; hash_there = refl });
        chained = Chained-backfill prev log.rows l.bare l.ascending;
        below =
            All-backfill (λ r. r.id < log.next_id) (λ r. r.id < log.next_id) prev log.rows l.bare
              l.below (λ r p h. h);
        within =
            All-backfill (λ r. r.id < log.next_id) (λ r. is_keyed r ≡ true → false ≡ true) prev
              log.rows l.bare l.below (λ r p h e. cc (e, unkeyed p r));
      }
