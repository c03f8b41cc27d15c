-- ===== src/Scheduler/Store.antt =====
-- crates/roos-scheduler/src/scheduler.rs: how tasks are parsed, saved, loaded and listed.
pub mod Laws
use roos.Base.{
  Text, codes, Option, none, some, List, [], ◌∷◌, ◌++◌, Result, ok, err, map_err, or_else, ℕ,
}
use roos.Base.Action.{Action, map_throw, lift, pure, ◌>>=◌, ◌>>◌}
use roos.Core.Types.{Uuid}
use roos.Scheduler.Task.{
  ScheduledTask, SchedulerError, backend_error, invalid_schedule, task_not_found,
}
use roos.Scheduler.Backend.{Backend}

-- `sled::open` is the parameter `sled_open`.
abbrev pub open_at : {D : Type 0} → (Text → Result Text D) → Text → Result SchedulerError D
open_at sled_open path = map_err backend_error (sled_open path)

module _ {D B S T : Type 0} (backend : Backend D B S T) where
  unfoldable pub parse_schedule : Text → Result SchedulerError S
  parse_schedule expr =
      map_err invalid_schedule
        (or_else (backend.from_str expr) (backend.from_str (codes "0 " ++ expr)))

  unfoldable pub save : ScheduledTask T → Action D SchedulerError (Unit {0})
  save task = do
    bytes ← lift (map_err backend_error (backend.codec.to_vec task))
    map_throw backend_error (backend.sled.insert task.id bytes)
    pure tt

  -- `?` on the read, `ok_or` on its absence, then the decoding.
  abbrev pub decoded : Uuid → Result Text (Option B) → Result SchedulerError (ScheduledTask T)
  decoded id (err e) = err (backend_error e)
  decoded id (ok none) = err (task_not_found id)
  decoded id (ok (some raw)) = map_err backend_error (backend.codec.from_slice raw)

  unfoldable pub load : Uuid → D → Result SchedulerError (ScheduledTask T)
  load id d = decoded id (backend.sled.get d id)

  abbrev pub listed :
      Result Text (ℕ × B) → List (ScheduledTask T) → Result SchedulerError (List (ScheduledTask T))
  listed (err e) tasks = err (backend_error e)
  listed (ok (k, v)) tasks = elim (backend.codec.from_slice v) [
    | err e ↦ err (backend_error e)
    | ok task ↦ ok (tasks ++ task ∷ [])
  ]

  -- The `for` loop of `list_tasks` over the rest of the iterator.
  unfoldable pub collect :
      List (Result Text (ℕ × B))
      → List (ScheduledTask T)
      → Result SchedulerError (List (ScheduledTask T))
  collect [] tasks = ok tasks
  collect (entry ∷ rest) tasks = elim (listed entry tasks) [
    | err e ↦ err e
    | ok tasks' ↦ collect rest tasks'
  ]

  unfoldable pub list_tasks : D → Result SchedulerError (List (ScheduledTask T))
  unfolding collect
  list_tasks d = collect (backend.sled.iter d) []
