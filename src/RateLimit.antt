-- ===== src/RateLimit.antt =====
-- src/auth/rate-limit.ts, the token bucket in memory, and src/auth/login-lockout.ts over it. A bucket
-- holds its tokens in units of 1 / window_seconds, so that a refill adds `per` units a second and
-- the arithmetic is exact: the rounding of the source's fractions is not modelled.
pub mod Budget
pub mod Window
use Prim.Native.Nat.{min}
use Prim.Native.String.{◌++◌}
use mcp_coordinator.Prelude.{
  ℕ, ◌+◌, ◌-◌, ◌*◌, ◌/◌, max, String, Bool, true, false, not, Option, none, some, List, ◌∷◌, ◌==◌,
  select, length, ltb, leb, if◌then◌else◌,
}
use mcp_coordinator.Table.{find_row}

pub record Config : Type 0 where
  pub per : ℕ
  pub window_seconds : ℕ

pub record Bucket : Type 0 where
  pub key : String
  pub tokens : ℕ
  pub last_refill : ℕ
  pub expires_at : ℕ

pub data Result : Type 0 where
  -- remaining and reset_at
  allowed : ℕ → ℕ → Result
  -- retry_after_seconds
  denied : ℕ → Result

abbrev pub is_allowed : Result → Bool
is_allowed (allowed remaining reset_at) = true
is_allowed (denied seconds) = false

abbrev pub capacity : Config → ℕ
capacity cfg = cfg.per * cfg.window_seconds

abbrev pub has_key : String → Bucket → Bool
has_key key b = b.key == key

abbrev pub is_lapsed : ℕ → Bucket → Bool
is_lapsed now b = ltb b.expires_at now

abbrev pub full : Config → String → ℕ → Bucket
full cfg key now = record {
  key = key;
  tokens = capacity cfg;
  last_refill = now;
  expires_at = now + cfg.window_seconds;
}

-- The bucket that is there and has not expired, or a new one.
unfoldable pub current : Config → String → ℕ → Option Bucket → Bucket
current cfg key now none = full cfg key now
current cfg key now (some b) = if is_lapsed now b then full cfg key now else b

abbrev pub topped_up : Config → ℕ → Bucket → ℕ
topped_up cfg now b = min (capacity cfg) (b.tokens + (now - b.last_refill) * cfg.per)

unfoldable pub refill : Config → ℕ → Bucket → Bucket
refill cfg now b =
    record (if ltb b.last_refill now
      then record b { tokens = topped_up cfg now b; last_refill = now }
      else b) { expires_at = now + cfg.window_seconds }

-- Math.max(1, Math.ceil((1 - tokens) / refillRate))
abbrev pub retry_after : Config → ℕ → ℕ
retry_after cfg tokens = max 1 ((cfg.window_seconds - tokens + (cfg.per - 1)) / cfg.per)

unfoldable pub take : Config → ℕ → Bucket → Result × Bucket
take cfg now b =
    if leb cfg.window_seconds b.tokens
    then (
      allowed ((b.tokens - cfg.window_seconds) / cfg.window_seconds) (now + cfg.window_seconds),
      record b { tokens = b.tokens - cfg.window_seconds },
    )
    else (denied (retry_after cfg b.tokens), b)

-- this.buckets.set(key, bucket)
abbrev pub put : Bucket → List Bucket → List Bucket
put b bs = b ∷ select (λ (c : Bucket). not (has_key b.key c)) bs

unfoldable pub check : String → Config → ℕ → List Bucket → Result × List Bucket
unfolding current refill take
check key cfg now bs =
    let (answer, b) =
      take cfg now (refill cfg now (current cfg key now (find_row (has_key key) bs))) in
    (answer, put b bs)

abbrev pub projected : Config → ℕ → ℕ → Result
projected cfg now tokens =
    if leb cfg.window_seconds tokens
    then allowed (tokens / cfg.window_seconds) (now + cfg.window_seconds)
    else denied (retry_after cfg tokens)

unfoldable pub peek_bucket : Config → ℕ → Option Bucket → Result
peek_bucket cfg now none = allowed cfg.per (now + cfg.window_seconds)
peek_bucket cfg now (some b) =
    if is_lapsed now b
    then allowed cfg.per (now + cfg.window_seconds)
    else projected cfg now (topped_up cfg now b)

unfoldable pub peek : String → Config → ℕ → List Bucket → Result
unfolding peek_bucket
peek key cfg now bs = peek_bucket cfg now (find_row (has_key key) bs)

-- The buckets that are left, and how many were deleted.
unfoldable pub sweep : ℕ → List Bucket → List Bucket × ℕ
sweep now bs = (
  select (λ (b : Bucket). not (is_lapsed now b)) bs,
  length (select (λ (b : Bucket). is_lapsed now b) bs),
)

-- login-lockout.ts: the lock, with its Retry-After.
abbrev pub lock_of : Result → Option ℕ
lock_of (allowed remaining reset_at) = none
lock_of (denied seconds) = some seconds

abbrev pub default_lockout : Config
default_lockout = record { per = 5; window_seconds = 15 * 60 }

unfoldable pub record_failed_login : String → Config → ℕ → List Bucket → Option ℕ × List Bucket
unfolding check
record_failed_login hash cfg now bs =
    let (answer, bs') = check ("lockout:" ++ hash) cfg now bs in (lock_of answer, bs')

unfoldable pub is_locked : String → Config → ℕ → List Bucket → Option ℕ
unfolding peek
is_locked hash cfg now bs = lock_of (peek ("lockout:" ++ hash) cfg now bs)
