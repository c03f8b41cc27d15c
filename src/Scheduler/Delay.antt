-- ===== src/Scheduler/Delay.antt =====
-- The wait before a retry, in `record_failure` of crates/roos-scheduler/src/scheduler.rs.
pub mod Bounds
use roos.Base.{ℕ, zero, suc, ◌+◌, ◌-◌, ◌*◌, ◌%◌, ◌^◌, ◌≤◌, ◌<◌, min, ◌≡◌, arith}
use roos.Base.Int.{ℤ, negsuc, as_i64}
use roos.Scheduler.Task.{RetryPolicy, RetryStrategy, fixed, exponential}

-- A `u32`: `+` and `-` wrap, as in a release build.
abbrev pub u32 : ℕ → ℕ
u32 n = n % 2 ^ 32

abbrev pub u64_max : ℕ
u64_max = 2 ^ 64 - 1

unfoldable pub saturating_mul : ℕ → ℕ → ℕ
saturating_mul a b = min (a * b) u64_max

-- The exponent of the back-off, `(retry_count - 1).min(62)`.
unfoldable pub back_off : ℕ → ℕ
back_off retry_count = min (u32 (retry_count + 2 ^ 32 - 1)) 62

unfoldable pub strategy_delay : RetryStrategy → ℕ → ℕ → ℕ
unfolding saturating_mul
strategy_delay fixed base retry_count = base
strategy_delay exponential base retry_count = saturating_mul base (2 ^ back_off retry_count)

-- `delay_secs`, for a count that was just incremented.
unfoldable pub delay_secs : RetryPolicy → ℕ → ℕ
unfolding strategy_delay
delay_secs p retry_count = strategy_delay p.strategy p.retry_delay_seconds retry_count
