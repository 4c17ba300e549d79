-- ===== src/Broker/Clock.antt =====
-- `time.Time` as a count of nanoseconds since the zero time, and `time.Duration`. What the daemon
-- reads from outside is a value of `World`.
use claude_bridge.Base.{ℕ, ◌-◌, ◌*◌, ◌^◌, ◌≤◌, Option, elim_or, min, arith}
use claude_bridge.Text.{Str}

-- The largest `time.Duration`, at which `Time.Sub` saturates.
abbrev pub max_duration : ℕ
max_duration = 2 ^ 63 - 1

-- `now.Sub(t)`. A negative difference is 0 here: it is compared with positive durations only.
unfoldable pub since : ℕ → ℕ → ℕ
since now t = min (now - t) max_duration

abbrev pub second : ℕ
second = 1000000000

abbrev pub minute : ℕ
minute = 60 * second

-- The n-th answers of the identifier generator and of the clock.
pub record World : Type 0 where
  pub uuid_v7 : ℕ → Option Str
  pub uuid_v4 : ℕ → Str
  pub clock : ℕ → ℕ

-- The n-th identifier: a UUIDv7, or a UUIDv4 where that fails.
unfoldable pub new_id : World → ℕ → Str
new_id w n = elim_or (w.uuid_v7 n) (w.uuid_v4 n)

pub since-le : (now t : ℕ) → since now t ≤ now - t
unfolding since
since-le now t = omega arith

pub since_mono : (now later t : ℕ) → now ≤ later → since now t ≤ since later t
unfolding since
since_mono now later t h = omega arith
