-- ===== src/Scheduler/Lifecycle/LateRetries.antt =====
-- What `record_failure` of crates/roos-scheduler/src/scheduler.rs makes of a task that has failed often.
use roos.Base.{◌+◌, ◌^◌, ◌≤◌, ◌<◌, ◌≡◌, ◌∙◌, ap, inl, inr, arith, Text, ok}
use roos.Base.Int.{negsuc, as_i64}
use roos.Core.Types.{Uuid}
use roos.Scheduler.Task.{ScheduledTask, exponential, pending}
use roos.Scheduler.Delay.{delay_secs}
use roos.Scheduler.Delay.Bounds.{late_delay_is_negative}
use roos.Scheduler.Backend.{Backend}
use roos.Scheduler.Store.{load}
use roos.Scheduler.Store.Laws.{BackendLaws, IsKeyed}
use roos.Scheduler.Lifecycle.{record_failure}
use roos.Scheduler.Lifecycle.Effects.{record_failure-stored}
use roos.Scheduler.Lifecycle.Retries.{fail_task-branches}

module _ {D B S T : Type 0} (backend : Backend D B S T) where
  -- A task with at least 62 failures, an exponential policy with a base of at least 4 seconds and
  -- retries left. When `record_failure` at a time returns `Ok`, the task that is loaded then has one
  -- failure more, is pending again, and is to run a second before that time. The conditions: the
  -- database meets its laws and holds every task under its id, and `max_retries` is a `u32`.
  pub late_retry_is_negative :
      BackendLaws backend
      → (d d' : D) (id : Uuid) (reason : Text) (now : T) (task : ScheduledTask T)
      → IsKeyed backend d
      → load backend id d ≡ ok task
      → task.retry_policy.strategy ≡ exponential
      → 4 ≤ task.retry_policy.retry_delay_seconds
      → 62 ≤ task.retry_count
      → task.retry_count + 1 ≤ task.retry_policy.max_retries
      → task.retry_policy.max_retries < 2 ^ 32
      → record_failure backend id reason now d ≡ (ok tt, d')
      → (t : ScheduledTask T) × (load backend id d' ≡ ok t)
        × (t.retry_count ≡ task.retry_count + 1)
        × (t.state ≡ pending)
        × (t.next_run ≡ backend.add_seconds now (negsuc 0))
  late_retry_is_negative laws d d' id reason now task keyed found strategy base late left fits h =
      let (t, made, over) =
        record_failure-stored backend laws id now d d' task keyed found reason h in
      let (count, _, _, _, _, ends) =
        fail_task-branches backend now reason task t (omega arith) made in
      let seconds : as_i64 (delay_secs task.retry_policy t.retry_count) ≡ negsuc 0 =
        late_delay_is_negative task.retry_policy t.retry_count strategy base (omega arith)
          (omega arith) in
      elim ends [
        | inl (_, p, next_run, _) ↦
            (t, over.0, count, p, next_run ∙ ap (backend.add_seconds now) seconds)
        | inr (over_limit, _, _) ↦ absurd (omega arith)
      ]
