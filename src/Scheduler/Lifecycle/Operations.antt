-- ===== src/Scheduler/Lifecycle/Operations.antt =====
-- The operations of crates/roos-scheduler/src/scheduler.rs that write, as values, and what they are
-- to do to a map from ids to tasks.
use roos.Base.{Text, Option, none, some, List, [], ◌∷◌, Fault, raised, nat_eq, if◌then◌else◌}
use roos.Base.Action.{Action, pure, map_throw, ◌>>◌}
use roos.Core.Types.{Uuid}
use roos.Scheduler.Task.{TaskState, RetryPolicy, ScheduledTask, SchedulerError, cron, one_shot}
use roos.Scheduler.Backend.{Backend}
use roos.Scheduler.Store.{load}
use roos.Scheduler.Lifecycle.{
  add_task_with_retry, add_one_shot_with_retry, record_failure, update_state, reschedule,
  remove_task,
}
use roos.Scheduler.Lifecycle.Rounds.{
  to_option, unrun, stated, schedule_of, after_failure, after_round,
}

-- A call, with the time and the new id that the method takes from outside.
pub data Operation (T : Type 0) : Type 0 where
  add_cron : Text → Text → Text → RetryPolicy → Uuid → T → Operation T
  add_once : Text → T → Text → RetryPolicy → Uuid → Operation T
  fail : Uuid → Text → T → Operation T
  set : Uuid → TaskState → T → Operation T
  next : Uuid → T → Operation T
  remove : Uuid → Operation T

abbrev pub Tasks : Type 0 → Type 0
Tasks T = Uuid → Option (ScheduledTask T)

module _ {T : Type 0} where
  abbrev pub put : Tasks T → Uuid → ScheduledTask T → Tasks T
  put m id t k = if nat_eq id k then some t else m k

  abbrev pub drop : Tasks T → Uuid → Tasks T
  drop m id k = if nat_eq id k then none else m k

  abbrev pub stored : Tasks T → Uuid → Option (ScheduledTask T) → Option (Tasks T)
  stored m id none = none
  stored m id (some t) = some (put m id t)

  abbrev pub changed :
      (ScheduledTask T → Option (ScheduledTask T))
      → Tasks T
      → Uuid
      → Option (ScheduledTask T)
      → Option (Tasks T)
  changed f m id none = none
  changed f m id (some t) = stored m id (f t)

  -- The task under `id` is replaced; there is none without a task or a replacement.
  abbrev pub change :
      (ScheduledTask T → Option (ScheduledTask T)) → Tasks T → Uuid → Option (Tasks T)
  change f m id = changed f m id (m id)

-- The task of a schedule that was read is put under `id`.
abbrev pub planned :
    {S T : Type 0} → (S → ScheduledTask T) → Tasks T → Uuid → Option S → Option (Tasks T)
planned f m id (some s) = some (put m id (f s))
planned f m id none = none

abbrev pub done :
    {D A : Type 0} → Action D SchedulerError A → Action D (Fault SchedulerError) (Unit {0})
done m = map_throw raised (do m; pure tt)

module _ {D B S T : Type 0} (backend : Backend D B S T) where
  unfoldable pub perform : Operation T → Action D (Fault SchedulerError) (Unit {0})
  perform (add_cron agent expr input policy id now) =
      done (add_task_with_retry backend agent expr input policy id now)
  perform (add_once agent at input policy id) =
      done (add_one_shot_with_retry backend agent at input policy id)
  perform (fail id reason now) = record_failure backend id reason now
  perform (set id state now) = done (update_state backend id state now)
  perform (next id now) = done (reschedule backend id now)
  perform (remove id) = done (remove_task backend id)

  -- A list of calls, the first error ending it.
  unfoldable pub perform_all : List (Operation T) → Action D (Fault SchedulerError) (Unit {0})
  unfolding perform
  perform_all [] = pure tt
  perform_all (op ∷ ops) = do perform op; perform_all ops

  -- What an operation is to make of the map, with the changes to a task as `Rounds` has them; `none`
  -- is an operation that it refuses.
  unfoldable pub specified : Operation T → Tasks T → Option (Tasks T)
  specified (add_cron agent expr input policy id now) m =
      planned (λ s. unrun id agent (cron expr) input (backend.upcoming s now) policy) m id
        (schedule_of backend expr)
  specified (add_once agent at input policy id) m =
      some (put m id (unrun id agent one_shot input (some at) policy))
  specified (fail id reason now) m = change (after_failure backend now reason) m id
  specified (set id state now) m = change (λ t. some (stated now state t)) m id
  specified (next id now) m = change (λ t. after_round backend now t.kind t) m id
  specified (remove id) m = some (drop m id)

  abbrev then_all : Option (Tasks T) → (Tasks T → Option (Tasks T)) → Option (Tasks T)
  then_all none f = none
  then_all (some m) f = f m

  unfoldable pub specified_all : List (Operation T) → Tasks T → Option (Tasks T)
  unfolding specified
  specified_all [] m = some m
  specified_all (op ∷ ops) m = then_all (specified op m) (specified_all ops)

  -- The tasks that can be loaded.
  abbrev pub tasks : D → Tasks T
  tasks d id = to_option (load backend id d)
