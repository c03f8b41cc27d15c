-- ===== src/Scheduler/Lifecycle.antt =====
-- crates/roos-scheduler/src/scheduler.rs: adding, failing, updating, rescheduling and removing
-- tasks. `Utc::now()` and `Uuid::new_v4()` are the arguments `now` and `id`.
pub mod Retries
pub mod Effects
pub mod Due
pub mod Keyed
pub mod Rounds
pub mod Operations
pub mod Composed
pub mod Returned
pub mod LateRetries
pub mod Implements
use roos.Base.{
  ℕ, suc, ◌+◌, ◌&&◌, Text, Bool, true, false, leb, if◌then◌else◌, Option, none, some, List, Result,
  ok, err, map_err, Fault, raised, panicked, keep_if, and_then,
}
use roos.Base.Int.{as_i64}
use roos.Base.Action.{Action, map_throw, lift, pure, throw, ◌>>=◌, ◌>>◌}
use roos.Core.Types.{Uuid}
use roos.Scheduler.Task.{
  TaskKind, cron, one_shot, TaskState, pending, running, completed, failed, state_eq, RetryPolicy,
  default, ScheduledTask, SchedulerError, backend_error,
}
use roos.Scheduler.Delay.{u32, delay_secs}
use roos.Scheduler.Backend.{Backend}
use roos.Scheduler.Store.{parse_schedule, save, load, list_tasks}

module _ {T : Type 0} where
  -- The task that `add_task_with_retry` and `add_one_shot_with_retry` build.
  abbrev pub new_task : Uuid → Text → TaskKind → Text → Option T → RetryPolicy → ScheduledTask T
  new_task id agent kind input next_run policy = record {
    id = id;
    agent = agent;
    kind = kind;
    input = input;
    state = pending;
    last_run = none;
    next_run = next_run;
    retry_policy = policy;
    retry_count = 0;
  }

module _ {D B S T : Type 0} (backend : Backend D B S T) where
  unfoldable pub add_task_with_retry :
      Text → Text → Text → RetryPolicy → Uuid → T → Action D SchedulerError Uuid
  add_task_with_retry agent cron_expr input policy id now = do
    schedule ← lift (parse_schedule backend cron_expr)
    save backend (new_task id agent (cron cron_expr) input (backend.upcoming schedule now) policy)
    pure id

  unfoldable pub add_task : Text → Text → Text → Uuid → T → Action D SchedulerError Uuid
  unfolding add_task_with_retry
  add_task agent cron_expr input = add_task_with_retry agent cron_expr input default

  unfoldable pub add_one_shot_with_retry :
      Text → T → Text → RetryPolicy → Uuid → Action D SchedulerError Uuid
  add_one_shot_with_retry agent at input policy id = do
    save backend (new_task id agent one_shot input (some at) policy)
    pure id

  unfoldable pub add_one_shot : Text → T → Text → Uuid → Action D SchedulerError Uuid
  unfolding add_one_shot_with_retry
  add_one_shot agent at input = add_one_shot_with_retry agent at input default

  -- What `record_failure` writes to the task whose count it has incremented; `none` is a panic of
  -- the addition of the delay.
  abbrev pub retried : ScheduledTask T → Option T → Option (ScheduledTask T)
  retried task none = none
  retried task (some t) = some (record task { next_run = some t; state = pending })

  unfoldable pub fail_task : T → Text → ScheduledTask T → Option (ScheduledTask T)
  fail_task now reason task =
      let counted = record task { retry_count = u32 (task.retry_count + 1) } in
      let retry =
        retried counted
          (backend.add_seconds now (as_i64 (delay_secs task.retry_policy counted.retry_count))) in
      if leb counted.retry_count task.retry_policy.max_retries
      then retry
      else some (record counted { state = failed reason; next_run = none })

  abbrev pub save_failed : Option (ScheduledTask T) → Action D (Fault SchedulerError) (Unit {0})
  save_failed none = throw panicked
  save_failed (some task) = map_throw raised (save backend task)

  unfoldable pub record_failure : Uuid → Text → T → Action D (Fault SchedulerError) (Unit {0})
  unfolding fail_task
  record_failure id reason now d =
      (do task ← lift (map_err raised (load backend id d)); save_failed (fail_task now reason task))
        d

  -- `t.state == Pending && t.next_run.is_some_and(|nr| nr <= now)`
  abbrev pub runs_by : T → Option T → Bool
  runs_by now none = false
  runs_by now (some nr) = backend.at_most nr now

  unfoldable pub is_due : T → ScheduledTask T → Bool
  unfolding state_eq
  is_due now t = state_eq t.state pending && runs_by now t.next_run

  unfoldable pub due_tasks : T → D → Result SchedulerError (List (ScheduledTask T))
  due_tasks now d = and_then (list_tasks backend d) λ tasks. ok (keep_if (is_due now) tasks)

  unfoldable pub set_state : T → TaskState → ScheduledTask T → ScheduledTask T
  unfolding state_eq
  set_state now state task =
      let stamped = if state_eq state running then record task { last_run = some now } else task in
      record stamped { state = state }

  unfoldable pub update_state : Uuid → TaskState → T → Action D SchedulerError (Unit {0})
  unfolding set_state
  update_state id state now d =
      (do task ← lift (load backend id d); save backend (set_state now state task)) d

  -- The `match &task.kind` of `reschedule`.
  unfoldable pub next_round :
      T → TaskKind → ScheduledTask T → Result SchedulerError (ScheduledTask T)
  next_round now (cron expr) task =
      and_then (parse_schedule backend expr)
        λ schedule. ok (record task { next_run = backend.upcoming schedule now; state = pending })
  next_round now one_shot task = ok (record task { state = completed; next_run = none })

  unfoldable pub reschedule : Uuid → T → Action D SchedulerError (Unit {0})
  unfolding next_round
  reschedule id now d =
      (do
        task ← lift (load backend id d)
        task' ← lift (next_round now task.kind task)
        save backend task')
        d

  unfoldable pub remove_task : Uuid → Action D SchedulerError (Unit {0})
  remove_task id = do map_throw backend_error (backend.sled.remove id); pure tt
