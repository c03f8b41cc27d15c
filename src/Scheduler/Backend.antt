-- ===== src/Scheduler/Backend.antt =====
-- What crates/roos-scheduler takes from other crates: the database, the encoding of tasks, the cron
-- parser and the calendar.
use roos.Base.{Text, Bool, Option, Result}
use roos.Base.Int.{ℤ}
use roos.Base.Sled.{Sled, Codec}
use roos.Scheduler.Task.{ScheduledTask}

-- `D` database, `B` bytes, `S` a parsed `cron::Schedule`, `T` a `DateTime<Utc>`.
pub record Backend (D B S T : Type 0) : Type 0 where
  pub sled : Sled D B
  pub codec : Codec (ScheduledTask T) B
  -- `Schedule::from_str`
  pub from_str : Text → Result Text S
  -- `schedule.upcoming(Utc).next()`, asked at a time
  pub upcoming : S → T → Option T
  -- `<=` of two times
  pub at_most : T → T → Bool
  -- `t + Duration::seconds(n)`, with `none` for its panic on overflow
  pub add_seconds : T → ℤ → Option T
