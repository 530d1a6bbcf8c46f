-- ===== src/Audit/Tampering.antt =====
-- What scripts/verify-audit-chain.ts finds when the content of rows has been rewritten in place.
use text.Mathlib.TextLemmas.{append_cancel_left}
use mcp_coordinator.Prelude.{
  String, ◌≡◌, refl, sym, subst, ◌∙◌, inl, inr, Bool, true, false, ◌||◌, Option, none, some, List,
  [], ◌∷◌, ◌++◌, ◌==◌, eq_iff, map, All, any, any-append, arith, if◌then◌else◌, Bool-cases,
  Option-cases,
}
use mcp_coordinator.Audit.{
  Crypto, AuditChainFields, AuditRow, is_hmac, hmac_prefix, ordered_fields, canonical_row_fields,
  compute_row_hash,
}
use mcp_coordinator.Audit.Verify.{
  RowFinding, is_failure, Walk, start_walk, gap_findings, expected_prev, check_link, check_hash,
  check_content, check_row, verify_from, verify, is_ok,
}

abbrev pub rewrite : (AuditRow → AuditChainFields) → AuditRow → AuditRow
rewrite edit r = record r { fields = edit r }

abbrev pub IsInjective : {A : Type 0} → (A → String) → Type 0
IsInjective {A} f = (x y : A) → f x ≡ f y → x ≡ y

or_false : (a b : Bool) → a || b ≡ false → (a ≡ false) × (b ≡ false)
or_false true b e = cc e
or_false false b e = (refl, e)

parts :
    (xs ys : List RowFinding)
    → any is_failure (xs ++ ys) ≡ false
    → (any is_failure xs ≡ false) × (any is_failure ys ≡ false)
parts xs ys e =
    or_false (any is_failure xs) (any is_failure ys) (sym (any-append is_failure xs ys) ∙ e)

ordered_inj : (f g : AuditChainFields) → ordered_fields f ≡ ordered_fields g → f ≡ g
ordered_inj f g e = λ i. record {
  action = p0 i;
  actor_org_id = p1 i;
  actor_ip = p2 i;
  actor_user_agent = p3 i;
  actor_user_id = p4 i;
  metadata_json = p5 i;
  outcome = p6 i;
  request_id = p7 i;
  target = p8 i;
}
  where
    p0 : f.action ≡ g.action
    p0 = cc e

    p1 : f.actor_org_id ≡ g.actor_org_id
    p1 = cc e

    p2 : f.actor_ip ≡ g.actor_ip
    p2 = cc e

    p3 : f.actor_user_agent ≡ g.actor_user_agent
    p3 = cc e

    p4 : f.actor_user_id ≡ g.actor_user_id
    p4 = cc e

    p5 : f.metadata_json ≡ g.metadata_json
    p5 = cc e

    p6 : f.outcome ≡ g.outcome
    p6 = cc e

    p7 : f.request_id ≡ g.request_id
    p7 = cc e

    p8 : f.target ≡ g.target
    p8 = cc e

module _ (crypto : Crypto) (key : Option String) (sha : IsInjective crypto.sha256)
    (mac : (k : String) → IsInjective (crypto.hmac_sha256 k)) where
  -- JSON.stringify writes the members of the two contents alike only if they are the same.
  abbrev pub Readable : AuditChainFields → AuditChainFields → Type 0
  Readable f g =
      crypto.stringify (ordered_fields f) ≡ crypto.stringify (ordered_fields g)
      → ordered_fields f ≡ ordered_fields g

  hash_inj :
      (o : Option String) (prev : String) (f g : AuditChainFields)
      → Readable f g
      → compute_row_hash crypto prev f o ≡ compute_row_hash crypto prev g o
      → f ≡ g
  unfolding compute_row_hash canonical_row_fields
  hash_inj none prev f g json e = ordered_inj f g (json (append_cancel_left prev _ _ (sha _ _ e)))
  hash_inj (some k) prev f g json e =
      ordered_inj f g
        (json (append_cancel_left prev _ _ (mac k _ _ (append_cancel_left hmac_prefix _ _ e))))

  hash_right :
      (o : Option String) (r : AuditRow) (prev hash : String)
      → any is_failure (check_hash crypto o r prev hash) ≡ false
      → compute_row_hash crypto prev r.fields o ≡ hash
  unfolding check_hash
  hash_right o r prev hash e = elim (Bool-cases (compute_row_hash crypto prev r.fields o == hash)) [
    | inl same ↦ (eq_iff _ hash).0 same
    | inr other ↦ cc (rw (other, check_hash) at e)
  ]

  content_right :
      (saw : Bool) (r : AuditRow) (prev hash : String)
      → any is_failure (check_content crypto key saw r prev hash) ≡ false
      → compute_row_hash crypto prev r.fields (if is_hmac hash then key else none) ≡ hash
  unfolding check_content
  content_right saw r prev hash e = elim (Bool-cases (is_hmac hash)) [
    | inl keyed ↦ elim (Option-cases key) [
      | inl k ↦ cc (rw (keyed, k, check_content) at e)
      | inr (k, there) ↦
          rw (keyed, there)
            (hash_right (some k) r prev hash (rw (keyed, there, check_content) at e))
    ]
    | inr bare ↦
        let downgraded : List RowFinding =
          if saw then RowFinding.downgraded_alg r.id ∷ [] else [] in
        let hashed = check_hash crypto none r prev hash in
        let both : any is_failure (downgraded ++ hashed) ≡ false = rw (bare, check_content) at e in
        rw bare (hash_right none r prev hash (parts downgraded hashed both).1)
  ]

  -- A row that passes has the hash of its content.
  row_right :
      (w : Walk) (r : AuditRow)
      → any is_failure (check_row crypto key w r).0 ≡ false
      → (prev : String) × (hash : String) × (r.prev_hash ≡ some prev)
        × (r.row_hash ≡ some hash)
        × (compute_row_hash crypto prev r.fields (if is_hmac hash then key else none) ≡ hash)
  unfolding check_row
  row_right w r e = elim (Option-cases r.row_hash) [
    | inl h ↦
        let bad : any is_failure (gap_findings w r.id ++ RowFinding.missing_hash r.id ∷ [])
            ≡ false =
          rw (h, check_row) at e in
        cc (parts (gap_findings w r.id) (RowFinding.missing_hash r.id ∷ []) bad).1
    | inr (hash, h) ↦ elim (Option-cases r.prev_hash) [
      | inl p ↦
          let bad : any is_failure (gap_findings w r.id ++ RowFinding.missing_hash r.id ∷ [])
              ≡ false =
            rw (h, p, check_row) at e in
          cc (parts (gap_findings w r.id) (RowFinding.missing_hash r.id ∷ []) bad).1
      | inr (prev, p) ↦
          let link = check_link r.id (expected_prev w r.id) prev in
          let content = check_content crypto key w.saw_hmac r prev hash in
          let good : any is_failure (gap_findings w r.id ++ (link ++ content)) ≡ false =
            rw (h, p, check_row) at e in
          let last =
            (parts link content (parts (gap_findings w r.id) (link ++ content) good).1).1 in
          (prev, hash, p, h, content_right w.saw_hmac r prev hash last)
    ]
  ]

  -- The walk goes by the ids and the hashes alone.
  same_walk :
      (w : Walk) (r : AuditRow) (f : AuditChainFields)
      → (check_row crypto key w (record r { fields = f })).1 ≡ (check_row crypto key w r).1
  unfolding check_row
  same_walk w r f = elim (Option-cases r.row_hash) [
    | inl h ↦ rw (h, check_row) refl
    | inr (hash, h) ↦ elim (Option-cases r.prev_hash) [
      | inl p ↦ rw (h, p, check_row) refl
      | inr (prev, p) ↦ rw (h, p, check_row) refl
    ]
  ]

  same_content :
      (w : Walk) (r : AuditRow) (f : AuditChainFields)
      → Readable f r.fields
      → any is_failure (check_row crypto key w r).0 ≡ false
      → any is_failure (check_row crypto key w (record r { fields = f })).0 ≡ false
      → f ≡ r.fields
  same_content w r f json e e' =
      let (prev, hash, p, h, right) = row_right w r e in
      let (prev', hash', p', h', right') = row_right w (record r { fields = f }) e' in
      let same_prev : prev' ≡ prev = cc (p, p') in
      let same_hash : hash' ≡ hash = cc (h, h') in
      let right'' : compute_row_hash crypto prev f (if is_hmac hash then key else none) ≡ hash =
        rw (same_prev, same_hash) at right' in
      hash_inj (if is_hmac hash then key else none) prev f r.fields json (right'' ∙ sym right)

  untouched :
      (edit : AuditRow → AuditChainFields) (w : Walk) (rs : List AuditRow)
      → All (λ r. Readable (edit r) r.fields) rs
      → any is_failure (verify_from crypto key w rs) ≡ false
      → any is_failure (verify_from crypto key w (map (rewrite edit) rs)) ≡ false
      → map (rewrite edit) rs ≡ rs
  unfolding verify_from
  untouched edit w [] json e e' = refl
  untouched edit w (r ∷ rs) json e e' =
      let c = check_row crypto key w r in
      let c' = check_row crypto key w (rewrite edit r) in
      let es = parts c.0 (verify_from crypto key c.1 rs) e in
      let es' = parts c'.0 (verify_from crypto key c'.1 (map (rewrite edit) rs)) e' in
      let same = same_content w r (edit r) json.0 es.0 es'.0 in
      let rest = untouched edit c.1 rs json.1 es.1 (
        subst (λ v. any is_failure (verify_from crypto key v (map (rewrite edit) rs)) ≡ false)
          (same_walk w r (edit r)) es'.1) in
      λ i. record r { fields = same i } ∷ rest i

  -- Content that has been rewritten in place is found: where a log passes, keyed rows and legacy rows
  -- alike, and passes again with the same ids and hashes after any rewriting of the rows' content,
  -- nothing has changed. (While the digests and their
  -- keyed variant have no collisions, and the JSON of a row's two contents shows every difference.)
  pub rewriting_found :
      (edit : AuditRow → AuditChainFields) (rs : List AuditRow)
      → All (λ r. Readable (edit r) r.fields) rs
      → is_ok crypto key rs ≡ true
      → is_ok crypto key (map (rewrite edit) rs) ≡ true
      → map (rewrite edit) rs ≡ rs
  unfolding is_ok verify
  rewriting_found edit rs json e e' =
      untouched edit start_walk rs json (ground (arith, e)) (ground (arith, e'))
