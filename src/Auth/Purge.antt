-- ===== src/Auth/Purge.antt =====
-- Steps 3 and 4 of sweepAll in src/sweeper/index.ts, on refresh_tokens.
use mcp_coordinator.Prelude.{
  ℕ, zero, suc, ◌-◌, ◌*◌, Bool, true, false, ◌&&◌, none, some, List, [], ◌∷◌, All, ltb,
}
use mcp_coordinator.Auth.State.{AuthDb, RefreshRow, is_live}

-- DELETE FROM … WHERE p LIMIT n: the first n rows that match go.
unfoldable pub delete_limit {ℓ} : {A : Type ℓ} → ℕ → (A → Bool) → List A → List A
delete_limit n p [] = []
delete_limit zero p (x ∷ xs) = x ∷ xs
delete_limit (suc n) p (x ∷ xs) = elim (p x) [
  | true ↦ delete_limit n p xs
  | false ↦ x ∷ delete_limit (suc n) p xs
]

abbrev pub batch_size : ℕ
batch_size = 1000

abbrev pub seconds_per_day : ℕ
seconds_per_day = 86400

abbrev pub refresh_expired_retention_days : ℕ
refresh_expired_retention_days = 30

-- revoked_at IS NOT NULL AND CAST(revoked_at AS INTEGER) < ?
abbrev pub is_old_revoked : ℕ → RefreshRow → Bool
is_old_revoked cutoff r = elim r.revoked_at [ none ↦ false | some t ↦ ltb t cutoff ]

-- revoked_at IS NULL AND CAST(expires_at AS INTEGER) < ?
abbrev pub is_long_expired : ℕ → RefreshRow → Bool
is_long_expired cutoff r = is_live r && ltb r.expires_at cutoff

unfoldable pub purge_tokens : ℕ → ℕ → AuthDb → AuthDb
unfolding delete_limit
purge_tokens now retention_days db =
    let revoked_cutoff = now - retention_days * seconds_per_day in
    let expired_cutoff = now - refresh_expired_retention_days * seconds_per_day in
    record db {
      tokens =
          delete_limit batch_size (is_long_expired expired_cutoff)
            (delete_limit batch_size (is_old_revoked revoked_cutoff) db.tokens);
    }

pub All-delete_limit {ℓ} :
    {A : Type ℓ} (P : A → Type 0) (n : ℕ) (p : A → Bool) (xs : List A)
    → All P xs
    → All P (delete_limit n p xs)
unfolding delete_limit
All-delete_limit {A} P n p [] h = tt
All-delete_limit {A} P zero p (x ∷ xs) h = h
All-delete_limit {A} P (suc n) p (x ∷ xs) h =
    kept (p x) (All-delete_limit P n p xs h.1) (h.0, All-delete_limit P (suc n) p xs h.1)
  where
    kept :
        (b : Bool)
        → All P (delete_limit n p xs)
        → All P (x ∷ delete_limit (suc n) p xs)
        → All P (elim b as (λ c. List A) [
          | true ↦ delete_limit n p xs
          | false ↦ x ∷ delete_limit (suc n) p xs
        ])
    kept true fewer rest = fewer
    kept false fewer rest = rest
