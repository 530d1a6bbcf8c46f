-- ===== src/RateLimit/Budget.antt =====
-- How many calls a bucket lets through over time: check, peek and sweep of src/auth/rate-limit.ts.
use native.Mathlib.Nat.{mul-le-mul_right, mul_comm, add-mul}
use mcp_coordinator.Prelude.{
  ℕ, ◌+◌, ◌-◌, ◌*◌, ◌≤◌, ◌<◌, String, ◌≡◌, ap, ◌∙◌, inl, inr, Option, none, some, List, ltb→lt,
  arith, Bool-cases,
}
use mcp_coordinator.RateLimit.{
  Config, Bucket, capacity, is_lapsed, current, refill, take, check, peek_bucket, peek, lock_of,
  record_failed_login, is_locked,
}

enough : (cfg : Config) → 0 < cfg.per → cfg.window_seconds ≤ capacity cfg
enough cfg h =
    let le : 1 ≤ cfg.per = omega arith in
    let scaled : 1 * cfg.window_seconds ≤ capacity cfg = mul-le-mul_right cfg.window_seconds le in
    omega (arith, scaled)

locks_alike :
    (cfg : Config) (key : String) (now : ℕ) (o : Option Bucket)
    → cfg.window_seconds ≤ capacity cfg
    → lock_of (peek_bucket cfg now o)
      ≡ lock_of (take cfg now (refill cfg now (current cfg key now o))).0
unfolding peek_bucket take refill current
locks_alike cfg key now none h = ground (arith)
locks_alike cfg key now (some b) h = ground (arith)

-- Where any attempts are allowed at all, isLocked foretells the next recordFailedLogin at the same
-- instant: both lock or neither does, with the same Retry-After.
pub is_locked-record_failed_login :
    (hash : String) (cfg : Config) (now : ℕ) (bs : List Bucket)
    → 0 < cfg.per
    → is_locked hash cfg now bs ≡ (record_failed_login hash cfg now bs).0
unfolding is_locked record_failed_login peek check
is_locked-record_failed_login hash cfg now bs h = locks_alike cfg _ now _ (enough cfg h)

module _ (cfg : Config) where
  -- A bucket at rest since `last_refill`, as check leaves it.
  pub record IsKept (now : ℕ) (b : Bucket) : Type 0 where
    pub past : b.last_refill ≤ now
    pub lifetime : b.expires_at ≡ b.last_refill + cfg.window_seconds

  abbrev pub Kept : ℕ → Option Bucket → Type 0
  Kept now none = Unit
  Kept now (some b) = IsKept now b

  -- The tokens that a bucket may have come to hold by now.
  abbrev pub potential : ℕ → Option Bucket → ℕ
  potential now none = capacity cfg
  potential now (some b) = b.tokens + (now - b.last_refill) * cfg.per

  pub elapse :
      (a b c : ℕ) → a ≤ b → b ≤ c → (c - a) * cfg.per ≡ (b - a) * cfg.per + (c - b) * cfg.per
  elapse a b c h k =
      let e : c - a ≡ (b - a) + (c - b) = omega arith in
      ap (λ n. n * cfg.per) e ∙ add-mul (b - a) (c - b) cfg.per

  pub potential_later :
      (now later : ℕ) (o : Option Bucket)
      → now ≤ later
      → Kept now o
      → potential later o ≤ potential now o + (later - now) * cfg.per
  potential_later now later none h k = omega arith
  potential_later now later (some b) h k = omega (arith, elapse b.last_refill now later k.past h)

  -- A new bucket holds no more than the old one would.
  pub expired_full :
      (now : ℕ) (b : Bucket)
      → IsKept now b
      → b.expires_at < now
      → capacity cfg ≤ potential now (some b)
  expired_full now b k h =
      let longer : cfg.window_seconds ≤ now - b.last_refill =
        omega (arith, k.past, k.lifetime, h) in
      omega (arith, mul-le-mul_right cfg.per longer, mul_comm cfg.per cfg.window_seconds)

  abbrev pub level : String → ℕ → Option Bucket → Bucket
  level key now o = refill cfg now (current cfg key now o)

  pub level_le :
      (key : String) (now : ℕ) (o : Option Bucket)
      → Kept now o
      → (level key now o).tokens ≤ potential now o
  unfolding refill current
  level_le key now none k = ground arith
  level_le key now (some b) k = elim (Bool-cases (is_lapsed now b)) [
    | inl e ↦ ground (arith, expired_full now b k (ltb→lt b.expires_at now e))
    | inr e ↦ ground arith
  ]

  pub level-Kept :
      (key : String) (now : ℕ) (o : Option Bucket)
      → Kept now o
      → ((level key now o).last_refill ≡ now)
        × ((level key now o).expires_at ≡ now + cfg.window_seconds)
  unfolding refill current
  level-Kept key now none k = (ground arith, ground arith)
  level-Kept key now (some b) k = (ground (arith, k.past), ground (arith, k.past))

  abbrev pub Keyed : String → Option Bucket → Type 0
  Keyed key none = Unit
  Keyed key (some b) = b.key ≡ key

  pub level_key :
      (key : String) (now : ℕ) (o : Option Bucket) → Keyed key o → (level key now o).key ≡ key
  unfolding refill current
  level_key key now none h = ground arith
  level_key key now (some b) h = ground (arith, h)
