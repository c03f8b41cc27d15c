-- ===== src/Scheduler/Delay/Bounds.antt =====
-- How the wait before a retry grows, in `record_failure` of crates/roos-scheduler/src/scheduler.rs.
use roos.Base.{ℕ, ◌-◌, ◌*◌, ◌^◌, ◌≤◌, ◌<◌, min, ◌≡◌, refl, arith}
use roos.Base.Int.{negsuc, as_i64}
use roos.Scheduler.Task.{RetryPolicy, exponential}
use roos.Scheduler.Delay.{u64_max, saturating_mul, back_off, strategy_delay, delay_secs}

back_off-eq : (c : ℕ) → 1 ≤ c → c < 2 ^ 32 → back_off c ≡ min (c - 1) 62
unfolding back_off
back_off-eq c h k = omega arith

-- From the 63rd failure on, an exponential delay with a base of at least 4 seconds saturates, and
-- `as i64` reads it as -1.
pub late_delay_is_negative :
    (p : RetryPolicy) (c : ℕ)
    → p.strategy ≡ exponential
    → 4 ≤ p.retry_delay_seconds
    → 63 ≤ c
    → c < 2 ^ 32
    → as_i64 (delay_secs p c) ≡ negsuc 0
unfolding delay_secs strategy_delay saturating_mul as_i64
late_delay_is_negative p c s h k l =
    let e : back_off c ≡ 62 = omega (arith, back_off-eq c (omega arith) l) in
    let big : min (p.retry_delay_seconds * 2 ^ 62) u64_max ≡ u64_max = omega arith in
    rw (s, strategy_delay) (rw e (rw big refl))
