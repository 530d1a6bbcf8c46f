-- ===== src/Clock.antt =====
-- The timestamps that the tables hold as TEXT. Two shapes meet in one column: CURRENT_TIMESTAMP and
-- datetime() of SQLite write "YYYY-MM-DD HH:MM:SS", and `new Date().toISOString()` of the
-- program writes "YYYY-MM-DDTHH:MM:SS.sssZ". A date is kept as its day number; SQL compares the
-- texts byte by byte, so the day decides, then the separator (" " is below "T"), then the time.
use mcp_coordinator.Prelude.{
  ℕ, ◌+◌, ◌-◌, ◌*◌, ◌/◌, ◌%◌, ◌≡◌, Bool, true, false, arith, ltb, if◌then◌else◌,
}

pub data Timestamp : Type 0 where
  sqlite : ℕ → ℕ → Timestamp
  iso : ℕ → ℕ → Timestamp

abbrev pub day : Timestamp → ℕ
day (sqlite d s) = d
day (iso d ms) = d

-- `a < b` on two values of the same day
same_day_lt : Timestamp → Timestamp → Bool
same_day_lt (sqlite d s) (sqlite e t) = ltb s t
same_day_lt (sqlite d s) (iso e ms) = true
same_day_lt (iso d ms) (sqlite e t) = false
same_day_lt (iso d ms) (iso e n) = ltb ms n

-- `a < b` on TEXT
unfoldable pub text_lt : Timestamp → Timestamp → Bool
unfolding same_day_lt
text_lt a b =
    if ltb (day a) (day b) then true else if ltb (day b) (day a) then false else same_day_lt a b

-- strftime('%s', t)
abbrev pub to_seconds : Timestamp → ℕ
to_seconds (sqlite d s) = d * 86400 + s
to_seconds (iso d ms) = d * 86400 + ms / 1000

abbrev pub of_seconds : ℕ → Timestamp
of_seconds n = sqlite (n / 86400) (n % 86400)

-- `now` is Date.now(), in milliseconds.
-- CURRENT_TIMESTAMP
abbrev pub current_timestamp : ℕ → Timestamp
current_timestamp now = of_seconds (now / 1000)

-- new Date().toISOString()
abbrev pub to_iso : ℕ → Timestamp
to_iso now = iso (now / 86400000) (now % 86400000)

-- datetime(t, '+' || n || ' seconds')
abbrev pub add_seconds : Timestamp → ℕ → Timestamp
add_seconds t n = of_seconds (to_seconds t + n)

-- datetime('now', '-' || m || ' minutes')
abbrev pub minutes_ago : ℕ → ℕ → Timestamp
minutes_ago now m = of_seconds (now / 1000 - m * 60)

-- Texts of the SQLite shape are in the order of the instants that they name.
pub text_lt-of_seconds : (a b : ℕ) → text_lt (of_seconds a) (of_seconds b) ≡ ltb a b
unfolding text_lt
text_lt-of_seconds a b = ground arith

-- Against a threshold of the SQLite shape, an ISO text of the same day is later whatever its time.
pub text_lt-iso : (d s ms : ℕ) → text_lt (sqlite d s) (iso d ms) ≡ true
unfolding text_lt
text_lt-iso d s ms = ground arith
