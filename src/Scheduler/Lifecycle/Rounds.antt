-- ===== src/Scheduler/Lifecycle/Rounds.antt =====
-- What crates/roos-scheduler/src/scheduler.rs is to make of one task, written without the functions of
-- the model: how a schedule is read, a new task, a failure, a change of state and the end of a round.
use roos.Base.{
  ℕ, ◌+◌, ◌-◌, ◌*◌, ◌%◌, ◌^◌, min, leb, if◌then◌else◌, Text, codes, ◌++◌, Option, none, some,
  Result, ok, err,
}
use roos.Base.Int.{as_i64}
use roos.Core.Types.{Uuid}
use roos.Scheduler.Task.{
  TaskKind, cron, one_shot, TaskState, pending, running, completed, failed, RetryPolicy,
  RetryStrategy, fixed, exponential, ScheduledTask,
}
use roos.Scheduler.Backend.{Backend}

abbrev pub to_option : {E A : Type 0} → Result E A → Option A
to_option (ok a) = some a
to_option (err e) = none

-- The wait after a failure that follows `n` others, `n` counted as a `u32`: the base, which an
-- exponential policy doubles with each of up to 62 earlier failures, up to the largest `u64`.
abbrev pub wait : RetryStrategy → ℕ → ℕ → ℕ
wait fixed base n = base
wait exponential base n = min (base * 2 ^ min (n % 2 ^ 32) 62) (2 ^ 64 - 1)

module _ {T : Type 0} where
  -- A task that has not run, with no failure.
  abbrev pub unrun : Uuid → Text → TaskKind → Text → Option T → RetryPolicy → ScheduledTask T
  unrun id agent kind input next_run policy = record {
    id = id;
    agent = agent;
    kind = kind;
    input = input;
    state = pending;
    last_run = none;
    next_run = next_run;
    retry_policy = policy;
    retry_count = 0;
  }

  -- The task with a state, a next run and a count of failures.
  abbrev pub turned : TaskState → Option T → ℕ → ScheduledTask T → ScheduledTask T
  turned state next_run n t = record {
    id = t.id;
    agent = t.agent;
    kind = t.kind;
    input = t.input;
    state = state;
    last_run = t.last_run;
    next_run = next_run;
    retry_policy = t.retry_policy;
    retry_count = n;
  }

  -- The change of state: only the change to `Running` is a run, at the time of the change.
  abbrev pub stated : T → TaskState → ScheduledTask T → ScheduledTask T
  stated now running t = record t { state = running; last_run = some now }
  stated now pending t = record t { state = pending }
  stated now completed t = record t { state = completed }
  stated now (failed reason) t = record t { state = failed reason }

module _ {D B S T : Type 0} (backend : Backend D B S T) where
  abbrev pub first_of : Option S → Option S → Option S
  first_of none o = o
  first_of (some s) o = some s

  -- An expression is read as it is, or else behind a field for the seconds.
  abbrev pub schedule_of : Text → Option S
  schedule_of expr =
      first_of (to_option (backend.from_str expr))
        (to_option (backend.from_str (codes "0 " ++ expr)))

  -- Pending again at a time; `none` is a time that is out of range.
  abbrev pub again_at : Option T → ℕ → ScheduledTask T → Option (ScheduledTask T)
  again_at none n t = none
  again_at (some at) n t = some (turned pending (some at) n t)

  -- A failure counts as one more. Up to `max_retries` the task is to run again after the wait; from
  -- then on it has failed and is not scheduled.
  abbrev pub after_failure : T → Text → ScheduledTask T → Option (ScheduledTask T)
  after_failure now reason t =
      let n = (t.retry_count + 1) % 2 ^ 32 in
      let seconds = wait t.retry_policy.strategy t.retry_policy.retry_delay_seconds t.retry_count in
      if leb n t.retry_policy.max_retries
      then again_at (backend.add_seconds now (as_i64 seconds)) n t
      else some (turned (failed reason) none n t)

  abbrev pub rescheduled_at : T → Option S → ScheduledTask T → Option (ScheduledTask T)
  rescheduled_at now none t = none
  rescheduled_at now (some s) t = some (turned pending (backend.upcoming s now) t.retry_count t)

  -- The end of a round: a cron task waits for the next time of its schedule, a one-shot task is
  -- completed.
  abbrev pub after_round : T → TaskKind → ScheduledTask T → Option (ScheduledTask T)
  after_round now (cron expr) t = rescheduled_at now (schedule_of expr) t
  after_round now one_shot t = some (turned completed none t.retry_count t)
