-- ===== src/Scheduler/Task.antt =====
-- crates/roos-scheduler/src/task.rs and error.rs. A `DateTime<Utc>` is the parameter `T`.
use roos.Base.{ℕ, Text, codes, text_eq, Bool, true, false, Option, ◌++◌}
use roos.Core.Types.{Uuid}

pub data TaskKind : Type 0 where
  cron : Text → TaskKind
  one_shot : TaskKind

pub data TaskState : Type 0 where
  pending running completed : TaskState
  failed : Text → TaskState

-- The derived `==`.
unfoldable pub state_eq : TaskState → TaskState → Bool
state_eq pending pending = true
state_eq running running = true
state_eq completed completed = true
state_eq (failed a) (failed b) = text_eq a b
state_eq _ _ = false

pub data RetryStrategy : Type 0 where
  fixed exponential : RetryStrategy

pub record RetryPolicy : Type 0 where
  pub max_retries : ℕ
  pub retry_delay_seconds : ℕ
  pub strategy : RetryStrategy

abbrev pub default : RetryPolicy
default = record { max_retries = 3; retry_delay_seconds = 60; strategy = exponential }

pub record ScheduledTask (T : Type 0) : Type 0 where
  pub id : Uuid
  pub agent : Text
  pub kind : TaskKind
  pub input : Text
  pub state : TaskState
  pub last_run : Option T
  pub next_run : Option T
  pub retry_policy : RetryPolicy
  pub retry_count : ℕ

pub data SchedulerError : Type 0 where
  backend_error : Text → SchedulerError
  invalid_schedule : Text → SchedulerError
  task_not_found : Uuid → SchedulerError

-- `Display`; how a `Uuid` is written is the argument `show_uuid`.
unfoldable pub display : (Uuid → Text) → SchedulerError → Text
unfolding codes
display show_uuid (backend_error source) = codes "scheduler backend error: " ++ source
display show_uuid (invalid_schedule reason) = codes "invalid cron schedule: " ++ reason
display show_uuid (task_not_found id) = codes "task not found: " ++ show_uuid id
