-- ===== src/Audit/Intact.antt =====
-- scripts/verify-audit-chain.ts on what the writers leave.
use mcp_coordinator.Prelude.{
  ℕ, suc, String, ◌≡◌, refl, sym, ap, ◌∙◌, ◌⊎◌, inl, inr, Bool, true, false, not, ◌||◌, Option,
  none, some, List, [], ◌∷◌, ◌++◌, eq_refl, All, All-of_Mem, All-Mem, arith, any, any-append, eq_ℕ,
  Bool-cases, Option-cases,
}
use mcp_coordinator.Audit.{
  Process, Crypto, AuditRow, AuditLog, AuditQueue, Connection, Act, is_hmac, compute_row_hash, acts,
}
use mcp_coordinator.Audit.Verify.{
  is_failure, Walk, start_walk, gap_findings, expected_prev, check_link, check_hash, check_content,
  check_row, verify_from, verify, is_ok,
}
use mcp_coordinator.Audit.Backfill.{IsLegacy, backfill_audit_chain, IsSound-backfill}
use mcp_coordinator.Audit.Written.{Sound-acts}
use mcp_coordinator.Audit.Linked.{
  is_keyed, Follows, Chained, key_of, IsHashed, IsSound-later, keyed_hash,
}

module _ (crypto : Crypto) (k : String) where
  -- What the loop holds agrees with a row that is still to come.
  abbrev Fits : Walk → AuditRow → Type 0
  Fits w r =
      ((expected_prev w r.id ≡ none) ⊎ (expected_prev w r.id ≡ r.prev_hash))
      × (w.saw_hmac ≡ true → is_keyed r ≡ true)

  gap_fine : (w : Walk) (id : ℕ) → any is_failure (gap_findings w id) ≡ false
  gap_fine w id = elim (Option-cases w.prev_id) [
    | inl e ↦ rw e refl
    | inr (i, e) ↦ elim (Bool-cases (eq_ℕ id (suc i))) [
      | inl h ↦ rw (e, h) refl
      | inr h ↦ rw (e, h) refl
    ]
  ]

  link_fine :
      (id : ℕ) (o : Option String) (prev : String)
      → (o ≡ none) ⊎ (o ≡ some prev)
      → any is_failure (check_link id o prev) ≡ false
  unfolding check_link
  link_fine id o prev (inl e) = rw e refl
  link_fine id o prev (inr e) = rw (e, eq_refl prev, check_link) refl

  content_fine :
      ((s : String) → is_hmac (crypto.sha256 s) ≡ false)
      → (saw : Bool) (r : AuditRow) (prev : String) (keyed : Bool) → (saw ≡ true → keyed ≡ true)
      → any is_failure (
          check_content crypto
            (some k)
            saw
            r
            prev
            (compute_row_hash crypto prev r.fields (key_of crypto k keyed)))
        ≡ false
  unfolding check_content check_hash
  content_fine plain saw r prev true h =
      rw
        (
          keyed_hash crypto k plain prev r.fields true,
          check_content,
          check_hash,
          eq_refl (compute_row_hash crypto prev r.fields (some k)),
        )
        refl
  content_fine plain true r prev false h = cc (h refl)
  content_fine plain false r prev false h =
      rw
        (
          keyed_hash crypto k plain prev r.fields false,
          check_content,
          check_hash,
          eq_refl (compute_row_hash crypto prev r.fields none),
        )
        refl

  Fits-next :
      (saw : Bool) (r t : AuditRow) (h : String)
      → r.row_hash ≡ some h
      → Follows r t
      → (saw ≡ true → is_keyed t ≡ true)
      → Fits record { prev_hash = some h; prev_id = some r.id; saw_hmac = saw || is_hmac h } t
  Fits-next saw r t h there f kept = (link, keyed saw kept)
    where
      w : Walk
      w = record { prev_hash = some h; prev_id = some r.id; saw_hmac = saw || is_hmac h }

      link : (expected_prev w t.id ≡ none) ⊎ (expected_prev w t.id ≡ t.prev_hash)
      link = elim (Bool-cases (eq_ℕ t.id (suc r.id))) [
        | inl e ↦
            let at : t.id ≡ suc r.id = ground (arith, e) in inr (rw e (sym (f.linked at ∙ there)))
        | inr e ↦ inl (rw e refl)
      ]

      keyed :
          (b : Bool) → (b ≡ true → is_keyed t ≡ true) → b || is_hmac h ≡ true → is_keyed t ≡ true
      keyed true g e = g refl
      keyed false g e = f.kept (ap (λ o. elim o [ none ↦ false | some h ↦ is_hmac h ]) there ∙ e)

  clean :
      ((s : String) → is_hmac (crypto.sha256 s) ≡ false)
      → (w : Walk) (rs : List AuditRow) → All (IsHashed crypto k) rs
      → Chained rs
      → All (Fits w) rs
      → any is_failure (verify_from crypto (some k) w rs) ≡ false
  unfolding verify_from check_row
  clean plain w [] h c f = refl
  clean plain w (r ∷ rs) h c f =
      let good = h.0 in
      let p = good.prev in
      let hash = compute_row_hash crypto p r.fields (key_of crypto k good.keyed) in
      let gaps = gap_findings w r.id in
      let link = check_link r.id (expected_prev w r.id) p in
      let content = check_content crypto (some k) w.saw_hmac r p hash in
      let is_keyed_r : is_keyed r ≡ good.keyed =
        ap (λ o. elim o [ none ↦ false | some h ↦ is_hmac h ]) good.hash_there
        ∙ keyed_hash crypto k plain p r.fields good.keyed in
      let linked : (expected_prev w r.id ≡ none) ⊎ (expected_prev w r.id ≡ some p) = elim f.0.0 [
        | inl e ↦ inl e
        | inr e ↦ inr (e ∙ good.prev_there)
      ] in
      let w' : Walk = record {
        prev_hash = some hash;
        prev_id = some r.id;
        saw_hmac = w.saw_hmac || is_hmac hash;
      } in
      let fits : All (Fits w') rs = All-of_Mem (Fits w') rs (λ t m.
        Fits-next w.saw_hmac r t hash good.hash_there (All-Mem (Follows r) c.0 m)
          (All-Mem (Fits w) f.1 m).1) in
      let rest = clean plain w' rs h.1 c.1 fits in
      let fine = content_fine plain w.saw_hmac r p good.keyed (λ e. sym is_keyed_r ∙ f.0.1 e) in
      let after = verify_from crypto (some k) w' rs in
      let total : any is_failure ((gaps ++ (link ++ content)) ++ after) ≡ false =
        any-append is_failure (gaps ++ (link ++ content)) after
        ∙ rw
            (
              any-append is_failure gaps (link ++ content),
              any-append is_failure link content,
              gap_fine w r.id,
              link_fine r.id (expected_prev w r.id) p linked,
              fine,
              rest,
            )
            refl in
      rw (good.hash_there, good.prev_there, verify_from, check_row) total

-- The verifier raises no false alarm. A table from before the chain, or a new one, is hashed by the
-- backfill; then, whatever is said in either tier, however the queue is flushed and drained, whether
-- the connection is open, shut or failing, and whichever rows the sweeper deletes, first in a
-- process without a key and then in one with it, the log passes with that key. (While no bare digest
-- starts like a keyed one.)
pub no_false_alarm :
    (crypto : Crypto) (k : String) (legacy : AuditLog)
    (before after : List (Connection × (ℕ × Act))) (q q' : Option AuditQueue)
    → ((s : String) → is_hmac (crypto.sha256 s) ≡ false)
    → IsLegacy legacy
    → is_ok crypto
        (some k)
        (acts crypto (some k) after record {
          queue = q';
          log =
              (acts crypto none before
                record { queue = q; log = backfill_audit_chain crypto legacy }).log;
        }).log.rows
      ≡ true
unfolding is_ok verify
no_false_alarm crypto k legacy before after q q' plain old =
    let first : Process = record { queue = q; log = backfill_audit_chain crypto legacy } in
    let between = (acts crypto none before first).log in
    let unkeyed =
      Sound-acts crypto k plain false before first (IsSound-backfill crypto k plain legacy old) in
    let second : Process = record { queue = q'; log = between } in
    let sound =
      Sound-acts crypto k plain true after second (IsSound-later crypto k between unkeyed) in
    let rows = (acts crypto (some k) after second).log.rows in
    ap not (
      clean crypto k plain start_walk rows sound.hashed sound.chained
        (All-of_Mem (Fits crypto k start_walk) rows (λ r m. (inl refl, λ e. cc e))))
