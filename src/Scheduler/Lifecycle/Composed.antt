-- ===== src/Scheduler/Lifecycle/Composed.antt =====
-- The changes of `Rounds` are those of the functions of crates/roos-scheduler/src/scheduler.rs.
use std.Path.{fun_ext}
use roos.Base.{
  ℕ, ◌+◌, Option, ◌≡◌, refl, ap, inl, inr, arith, Text, some, Result-cases, min, ◌%◌, ◌^◌, codes,
  ◌++◌,
}
use roos.Scheduler.Task.{
  TaskKind, cron, one_shot, TaskState, pending, running, completed, failed, RetryStrategy, fixed,
  exponential, ScheduledTask,
}
use roos.Scheduler.Delay.{saturating_mul, strategy_delay, delay_secs, back_off, u32}
use roos.Scheduler.Backend.{Backend}
use roos.Scheduler.Store.{parse_schedule}
use roos.Scheduler.Lifecycle.{new_task, fail_task, set_state, next_round}
use roos.Scheduler.Lifecycle.Rounds.{
  to_option, wait, stated, schedule_of, after_failure, after_round,
}
use roos.Scheduler.Lifecycle.Operations.{
  Operation, add_cron, add_once, fail, set, next, remove, Tasks, put, drop, planned, change,
  specified,
}

back_off-count : (n : ℕ) → back_off (u32 (n + 1)) ≡ min (n % 2 ^ 32) 62
unfolding back_off
back_off-count n = omega arith

strategy_delay-wait :
    (s : RetryStrategy) (base n : ℕ) → strategy_delay s base (u32 (n + 1)) ≡ wait s base n
unfolding strategy_delay saturating_mul
strategy_delay-wait fixed base n = refl
strategy_delay-wait exponential base n = rw (back_off-count n) refl

module _ {D B S T : Type 0} (backend : Backend D B S T) where
  parse_schedule-schedule_of :
      (expr : Text) → to_option (parse_schedule backend expr) ≡ schedule_of backend expr
  unfolding parse_schedule
  parse_schedule-schedule_of expr = elim (Result-cases (backend.from_str expr)) [
    | inl (s, p) ↦ rw p refl
    | inr (e, p) ↦ elim (Result-cases (backend.from_str (codes "0 " ++ expr))) [
      | inl (s, q) ↦ rw (p, q) refl
      | inr (e', q) ↦ rw (p, q) refl
    ]
  ]

  fail_task-after_failure :
      (now : T) (reason : Text) (t : ScheduledTask T)
      → fail_task backend now reason t ≡ after_failure backend now reason t
  unfolding fail_task delay_secs
  fail_task-after_failure now reason t = ground (
    arith,
    strategy_delay-wait t.retry_policy.strategy t.retry_policy.retry_delay_seconds t.retry_count,
  )

  set_state-stated :
      (now : T) (state : TaskState) (t : ScheduledTask T)
      → set_state backend now state t ≡ stated now state t
  unfolding set_state
  set_state-stated now pending t = refl
  set_state-stated now running t = refl
  set_state-stated now completed t = refl
  set_state-stated now (failed reason) t = refl

  next_round-after_round :
      (now : T) (kind : TaskKind) (t : ScheduledTask T)
      → to_option (next_round backend now kind t) ≡ after_round backend now kind t
  unfolding next_round
  next_round-after_round now (cron expr) t = elim (Result-cases (parse_schedule backend expr)) [
    | inl (s, p) ↦ rw (← parse_schedule-schedule_of expr, p) refl
    | inr (e, p) ↦ rw (← parse_schedule-schedule_of expr, p) refl
  ]
  next_round-after_round now one_shot t = refl

  -- The map, changed by the functions of the code.
  unfoldable pub composed : Operation T → Tasks T → Option (Tasks T)
  composed (add_cron agent expr input policy id now) m =
      planned (λ s. new_task id agent (cron expr) input (backend.upcoming s now) policy) m id
        (to_option (parse_schedule backend expr))
  composed (add_once agent at input policy id) m =
      some (put m id (new_task id agent one_shot input (some at) policy))
  composed (fail id reason now) m = change (fail_task backend now reason) m id
  composed (set id state now) m = change (λ t. some (set_state backend now state t)) m id
  composed (next id now) m = change (λ t. to_option (next_round backend now t.kind t)) m id
  composed (remove id) m = some (drop m id)

  pub composed-specified : (op : Operation T) (m : Tasks T) → composed op m ≡ specified backend op m
  unfolding specified composed codes
  composed-specified (add_cron agent expr input policy id now) m =
      ap (planned (λ s. new_task id agent (cron expr) input (backend.upcoming s now) policy) m id)
        (parse_schedule-schedule_of expr)
  composed-specified (add_once agent at input policy id) m = refl
  composed-specified (fail id reason now) m =
      ap (λ f. change f m id) (fun_ext (λ t. fail_task-after_failure now reason t))
  composed-specified (set id state now) m =
      ap (λ f. change f m id) (fun_ext (λ t. ap some (set_state-stated now state t)))
  composed-specified (next id now) m =
      ap (λ f. change f m id) (fun_ext (λ t. next_round-after_round now t.kind t))
  composed-specified (remove id) m = refl
