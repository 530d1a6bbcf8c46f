-- ===== src/Audit/Linked.antt =====
-- What the writers of src/security and the sweeper keep of audit_log.
use Prim.Native.String.{◌++◌ as ◌⧺◌}
use text.Mathlib.TextEquality.{starts_with_iff}
use text.Mathlib.TextLemmas.{prefix-append}
use mcp_coordinator.Prelude.{
  ℕ, zero, suc, ◌<◌, String, ◌≡◌, refl, sym, ap, ◌∙◌, inl, inr, Bool, true, false, Option, none,
  some, List, [], ◌∷◌, ◌++◌, All, All-append, All-Mem, All-of_Mem, Memᴰ, head, tail, arith,
  if◌then◌else◌, Bool-cases,
}
use mcp_coordinator.Auth.Purge.{delete_limit}
use mcp_coordinator.Audit.{
  Crypto, AuditChainFields, AuditRow, AuditLog, is_hmac, hmac_prefix, canonical_row_fields,
  compute_row_hash, tip,
}

abbrev pub is_keyed : AuditRow → Bool
is_keyed r = elim r.row_hash [ none ↦ false | some h ↦ is_hmac h ]

-- `s` stands somewhere after `r`.
pub record Follows (r s : AuditRow) : Type 0 where
  pub later : r.id < s.id
  pub linked : s.id ≡ suc r.id → s.prev_hash ≡ r.row_hash
  pub kept : is_keyed r ≡ true → is_keyed s ≡ true

abbrev pub Chained : List AuditRow → Type 0
Chained [] = Unit
Chained (r ∷ rs) = All (Follows r) rs × Chained rs

module _ (P : AuditRow → Type 0) where
  All-delete_limit :
      (n : ℕ) (p : AuditRow → Bool) (rs : List AuditRow) → All P rs → All P (delete_limit n p rs)
  unfolding delete_limit
  All-delete_limit n p [] h = tt
  All-delete_limit zero p (r ∷ rs) h = h
  All-delete_limit (suc n) p (r ∷ rs) h = elim (Bool-cases (p r)) [
    | inl e ↦ rw (e, delete_limit) (All-delete_limit n p rs h.1)
    | inr e ↦ rw (e, delete_limit) (h.0, All-delete_limit (suc n) p rs h.1)
  ]

Chained-delete_limit :
    (n : ℕ) (p : AuditRow → Bool) (rs : List AuditRow) → Chained rs → Chained (delete_limit n p rs)
unfolding delete_limit
Chained-delete_limit n p [] h = tt
Chained-delete_limit zero p (r ∷ rs) h = h
Chained-delete_limit (suc n) p (r ∷ rs) h = elim (Bool-cases (p r)) [
  | inl e ↦ rw (e, delete_limit) (Chained-delete_limit n p rs h.1)
  | inr e ↦
      rw (e, delete_limit)
        (All-delete_limit (Follows r) (suc n) p rs h.0, Chained-delete_limit (suc n) p rs h.1)
]

pub Chained-append :
    (r : AuditRow) (rs : List AuditRow)
    → Chained rs
    → All (λ q. Follows q r) rs
    → Chained (rs ++ r ∷ [])
Chained-append r [] h f = (tt, tt)
Chained-append r (q ∷ qs) h f =
    (All-append (Follows q) qs (r ∷ []) h.0 (f.0, tt), Chained-append r qs h.1 f.1)

pub tip-append :
    (r : AuditRow) (h : String) (rs : List AuditRow)
    → r.row_hash ≡ some h
    → tip (rs ++ r ∷ []) ≡ some h
tip-append r h [] e = e
tip-append r h (q ∷ qs) e = rw (tip-append r h qs e) refl

module _ (crypto : Crypto) (k : String) where
  -- The key of a row that is keyed, or of one that is not.
  abbrev pub key_of : Bool → Option String
  key_of keyed = if keyed then some k else none

  -- The row's hash is that of its own content.
  pub record IsHashed (r : AuditRow) : Type 0 where
    pub prev : String
    pub keyed : Bool
    pub prev_there : r.prev_hash ≡ some prev
    pub hash_there : r.row_hash ≡ some (compute_row_hash crypto prev r.fields (key_of keyed))

  -- What holds of the log while the process has its key, or has none yet.
  pub record IsSound (used : Bool) (log : AuditLog) : Type 0 where
    pub hashed : All IsHashed log.rows
    pub chained : Chained log.rows
    pub below : All (λ r. r.id < log.next_id) log.rows
    pub within : All (λ r. is_keyed r ≡ true → used ≡ true) log.rows

  pub IsSound-delete :
      (used : Bool) (n : ℕ) (p : AuditRow → Bool) (log : AuditLog)
      → IsSound used log
      → IsSound used (record log { rows = delete_limit n p log.rows })
  IsSound-delete used n p log s = record {
    hashed = All-delete_limit IsHashed n p log.rows s.hashed;
    chained = Chained-delete_limit n p log.rows s.chained;
    below = All-delete_limit (λ r. r.id < log.next_id) n p log.rows s.below;
    within = All-delete_limit (λ r. is_keyed r ≡ true → used ≡ true) n p log.rows s.within;
  }

  -- A process that has the key goes on with the log of one that has none.
  pub IsSound-later : (log : AuditLog) → IsSound false log → IsSound true log
  IsSound-later log s = record {
    hashed = s.hashed;
    chained = s.chained;
    below = s.below;
    within = All-of_Mem (λ r. is_keyed r ≡ true → true ≡ true) log.rows (λ r m e. refl);
  }

  -- The row just below the next id is the tip.
  pub tip_exact :
      (next : ℕ) (rs : List AuditRow) {r : AuditRow}
      → All IsHashed rs
      → Chained rs
      → All (λ q. q.id < next) rs
      → Memᴰ r rs
      → next ≡ suc r.id
      → tip rs ≡ r.row_hash
  tip_exact next [] h c b m e = elim m [ ]
  tip_exact next (q ∷ []) h c b (head same) e = ap (λ (r : AuditRow). r.row_hash) (sym same)
  tip_exact next (q ∷ p ∷ rs) h c b (head same) e =
      absurd (omega (arith, c.0.0.later, b.1.0, ap (λ (r : AuditRow). r.id) same, e))
  tip_exact next (q ∷ []) h c b (tail m) e = elim m [ ]
  tip_exact next (q ∷ p ∷ rs) h c b (tail m) e =
      let ih = tip_exact next (p ∷ rs) h.1 c.1 b.1 m e in
      let there = (All-Mem IsHashed h.1 m).hash_there in rw (ih ∙ there) (sym there)

  pub keyed_hash :
      ((s : String) → is_hmac (crypto.sha256 s) ≡ false)
      → (prev : String) (row : AuditChainFields) (keyed : Bool)
      → is_hmac (compute_row_hash crypto prev row (key_of keyed)) ≡ keyed
  unfolding compute_row_hash
  keyed_hash plain prev row false = plain (prev ⧺ canonical_row_fields crypto row)
  keyed_hash plain prev row true =
      (starts_with_iff (hmac_prefix ⧺ crypto.hmac_sha256 k (prev ⧺ canonical_row_fields crypto row))
          hmac_prefix).1
        (prefix-append hmac_prefix (crypto.hmac_sha256 k (prev ⧺ canonical_row_fields crypto row)))
