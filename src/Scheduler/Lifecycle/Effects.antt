-- ===== src/Scheduler/Lifecycle/Effects.antt =====
-- What the operations of crates/roos-scheduler/src/scheduler.rs leave in the database.
use roos.Base.{
  ◌≡◌, ◌≢◌, refl, subst, ◌∙◌, inl, inr, Text, some, ok, err, raised, Result-cases, nat_eq_iff,
  Option-cases, arith,
}
use roos.Core.Types.{Uuid}
use roos.Scheduler.Task.{
  TaskKind, cron, one_shot, TaskState, RetryPolicy, ScheduledTask, SchedulerError,
}
use roos.Scheduler.Backend.{Backend}
use roos.Scheduler.Store.{save, load, parse_schedule}
use roos.Scheduler.Store.Laws.{BackendLaws, IsKeyed, load-save}
use roos.Scheduler.Lifecycle.{
  new_task, add_task_with_retry, add_one_shot_with_retry, fail_task, record_failure, set_state,
  update_state, next_round, reschedule,
}

module _ {D B S T : Type 0} (backend : Backend D B S T) where
  -- The database `d'` has the task `t` under `id`, and under every other id what `d` has.
  abbrev pub StoredOver : D → D → Uuid → ScheduledTask T → Type 0
  StoredOver d d' id t =
      (load backend id d' ≡ ok t) × ((j : Uuid) → id ≢ j → load backend j d' ≡ load backend j d)

  -- An operation on a task that cannot be loaded, because it is missing or unreadable, returns that
  -- error and writes nothing.
  pub load_error-unchanged :
      (id : Uuid) (d : D) (e : SchedulerError) (reason : Text) (state : TaskState) (now : T)
      → load backend id d ≡ err e
      → (record_failure backend id reason now d ≡ (err (raised e), d))
        × (update_state backend id state now d ≡ (err e, d))
        × (reschedule backend id now d ≡ (err e, d))
  unfolding record_failure update_state reschedule
  load_error-unchanged id d e reason state now h = (rw h refl, rw h refl, rw h refl)

  pub id-fail_task :
      (now : T) (reason : Text) (task t : ScheduledTask T)
      → fail_task backend now reason task ≡ some t
      → t.id ≡ task.id
  unfolding fail_task
  id-fail_task now reason task t h = ground arith

  pub id-set_state :
      (now : T) (state : TaskState) (task : ScheduledTask T)
      → (set_state backend now state task).id ≡ task.id
  unfolding set_state
  id-set_state now state task = ground arith

  pub id-next_round :
      (now : T) (kind : TaskKind) (task t : ScheduledTask T)
      → next_round backend now kind task ≡ ok t
      → t.id ≡ task.id
  unfolding next_round
  id-next_round now (cron expr) task t h = ground arith
  id-next_round now one_shot task t h = ground arith

  module _ (laws : BackendLaws backend) where
    save-StoredOver :
        (t : ScheduledTask T) (d d' : D) → save backend t d ≡ (ok tt, d') → StoredOver d d' t.id t
    save-StoredOver t d d' h = (
      load-save backend laws t d d' t.id h ∙ ground (arith, nat_eq_iff t.id t.id),
      λ j n. load-save backend laws t d d' j h ∙ ground (arith, nat_eq_iff t.id j),
    )

    -- A one-shot task that was added is stored as pending, due at its time and never failed; the
    -- other tasks are as they were.
    pub add_one_shot-stored :
        (agent input : Text) (at : T) (policy : RetryPolicy) (id : Uuid) (d d' : D)
        → add_one_shot_with_retry backend agent at input policy id d ≡ (ok id, d')
        → StoredOver d d' id (new_task id agent one_shot input (some at) policy)
    unfolding add_one_shot_with_retry
    add_one_shot-stored agent input at policy id d d' h =
        save-StoredOver (new_task id agent one_shot input (some at) policy) d d' (ground arith)

    -- A cron task is added exactly if its expression parses, as it stands or behind `0 `, and the
    -- save succeeds; then it is stored as pending with the next time of its schedule. If the
    -- expression does not parse, the error is returned and nothing is written.
    pub add_task-stored :
        (agent expr input : Text) (policy : RetryPolicy) (id : Uuid) (now : T) (d d' : D)
        → ((e : SchedulerError)
            → parse_schedule backend expr ≡ err e
            → add_task_with_retry backend agent expr input policy id now d ≡ (err e, d))
          × ((s : S)
              → parse_schedule backend expr ≡ ok s
              → add_task_with_retry backend agent expr input policy id now d ≡ (ok id, d')
              → StoredOver d d' id
                  (new_task id agent (cron expr) input (backend.upcoming s now) policy))
    unfolding add_task_with_retry
    add_task-stored agent expr input policy id now d d' = (
      λ e h. rw h refl,
      λ s h k.
          save-StoredOver (new_task id agent (cron expr) input (backend.upcoming s now) policy) d d'
            (ground arith),
    )

    module _ (id : Uuid) (now : T) (d d' : D) (task : ScheduledTask T) (keyed : IsKeyed backend d)
        (found : load backend id d ≡ ok task) where
      stored_own :
          (t : ScheduledTask T)
          → t.id ≡ task.id
          → save backend t d ≡ (ok tt, d')
          → StoredOver d d' id t
      stored_own t same h =
          subst (λ k. StoredOver d d' k t) (same ∙ keyed id task found) (save-StoredOver t d d' h)

      -- A recorded failure that returns `Ok` stores what the retry policy makes of the task.
      pub record_failure-stored :
          (reason : Text)
          → record_failure backend id reason now d ≡ (ok tt, d')
          → (t : ScheduledTask T) × (fail_task backend now reason task ≡ some t)
            × StoredOver d d' id t
      unfolding record_failure
      record_failure-stored reason h = elim (Option-cases (fail_task backend now reason task)) [
        | inl p ↦ absurd (ground arith)
        | inr (t, p) ↦ (t, p, stored_own t (id-fail_task now reason task t p) (ground arith))
      ]

      -- A state update that returns `Ok` stores the loaded task with the new state, and with `now` as
      -- its last run if that state is `Running`.
      pub update_state-stored :
          (state : TaskState)
          → update_state backend id state now d ≡ (ok tt, d')
          → StoredOver d d' id (set_state backend now state task)
      unfolding update_state
      update_state-stored state h =
          stored_own (set_state backend now state task) (id-set_state now state task) (ground arith)

      -- A reschedule that returns `Ok` stores the loaded task's next round.
      pub reschedule-stored :
          reschedule backend id now d ≡ (ok tt, d')
          → (t : ScheduledTask T) × (next_round backend now task.kind task ≡ ok t)
            × StoredOver d d' id t
      unfolding reschedule
      reschedule-stored h = elim (Result-cases (next_round backend now task.kind task)) [
        | inl (t, p) ↦ (t, p, stored_own t (id-next_round now task.kind task t p) (ground arith))
        | inr (e, p) ↦ absurd (ground arith)
      ]
