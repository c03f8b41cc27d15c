-- ===== src/Scheduler/Lifecycle/Keyed.antt =====
-- That each task of crates/roos-scheduler/src/scheduler.rs stays under its own id.
use roos.Base.{
  [], ◌≡◌, ◌≢◌, refl, sym, ap, ◌∙◌, inl, inr, arith, Bool-cases, Text, none, some, ok, ok-injective,
  Result-cases, nat_eq, nat_eq_iff,
}
use roos.Core.Types.{Uuid}
use roos.Scheduler.Task.{pending, TaskState, RetryPolicy, ScheduledTask, cron, one_shot}
use roos.Scheduler.Backend.{Backend}
use roos.Scheduler.Store.{load, parse_schedule}
use roos.Scheduler.Store.Laws.{BackendLaws, IsKeyed}
use roos.Scheduler.Lifecycle.{
  new_task, add_task_with_retry, add_one_shot_with_retry, record_failure, set_state, update_state,
  reschedule, remove_task,
}
use roos.Scheduler.Lifecycle.Effects.{
  load_error-unchanged, StoredOver, add_task-stored, add_one_shot-stored, record_failure-stored,
  update_state-stored, reschedule-stored, id-fail_task, id-set_state, id-next_round,
}

module _ {D B S T : Type 0} (backend : Backend D B S T) where
  -- The databases that calls lead to which return `Ok`, from one without entries.
  pub data Built : D → Type 0 where
    unused : {d : D} → ((k : Uuid) → backend.sled.get d k ≡ ok none) → Built d
    added :
        {d d' : D} (agent expr input : Text) (policy : RetryPolicy) (id : Uuid) (now : T)
        → Built d
        → add_task_with_retry backend agent expr input policy id now d ≡ (ok id, d')
        → Built d'
    added_one_shot :
        {d d' : D} (agent input : Text) (at : T) (policy : RetryPolicy) (id : Uuid)
        → Built d
        → add_one_shot_with_retry backend agent at input policy id d ≡ (ok id, d')
        → Built d'
    failed :
        {d d' : D} (id : Uuid) (reason : Text) (now : T)
        → Built d
        → record_failure backend id reason now d ≡ (ok tt, d')
        → Built d'
    updated :
        {d d' : D} (id : Uuid) (state : TaskState) (now : T)
        → Built d
        → update_state backend id state now d ≡ (ok tt, d')
        → Built d'
    rescheduled :
        {d d' : D} (id : Uuid) (now : T)
        → Built d
        → reschedule backend id now d ≡ (ok tt, d')
        → Built d'
    removed : {d d' : D} (id : Uuid) → Built d → remove_task backend id d ≡ (ok tt, d') → Built d'

  stored-IsKeyed :
      (d d' : D) (id : Uuid) (t : ScheduledTask T)
      → IsKeyed backend d
      → t.id ≡ id
      → StoredOver backend d d' id t
      → IsKeyed backend d'
  stored-IsKeyed d d' id t keyed own (there, others) k u found = elim (Bool-cases (nat_eq id k)) [
    | inl same ↦
        let e : id ≡ k = (nat_eq_iff id k).0 same in
        let u_is_t : t ≡ u = ok-injective (sym there ∙ ap (λ j. load backend j d') e ∙ found) in
        ap (λ v. v.id) (sym u_is_t) ∙ own ∙ e
    | inr other ↦
        let apart : id ≢ k = λ e. absurd (ground (arith, other, nat_eq_iff id k)) in
        keyed k u (sym (others k apart) ∙ found)
  ]

  pub remove_task-inv :
      (id : Uuid) (d d' : D)
      → remove_task backend id d ≡ (ok tt, d')
      → backend.sled.remove id d ≡ (ok tt, d')
  unfolding remove_task
  remove_task-inv id d d' h = elim (Result-cases (backend.sled.remove id d).0) [
    | inl (u, p) ↦ (ground arith)
    | inr (e, p) ↦ absurd (ground arith)
  ]

  removed-IsKeyed :
      BackendLaws backend
      → (d d' : D) (id : Uuid) → IsKeyed backend d
      → remove_task backend id d ≡ (ok tt, d')
      → IsKeyed backend d'
  unfolding load
  removed-IsKeyed laws d d' id keyed h k u found =
      let gone = laws.stored.get-remove d d' id k (remove_task-inv id d d' h) in
      elim (Bool-cases (nat_eq id k)) [
        | inl same ↦ absurd (ground (arith, gone, same, found))
        | inr other ↦ keyed k u (ground (arith, gone, other, found))
      ]

  unused-IsKeyed : (d : D) → ((k : Uuid) → backend.sled.get d k ≡ ok none) → IsKeyed backend d
  unfolding load
  unused-IsKeyed d no_entry k t found = absurd (ground (arith, no_entry k, found))

  failed-IsKeyed :
      BackendLaws backend
      → (d d' : D) (id : Uuid) (reason : Text) (now : T) → IsKeyed backend d
      → record_failure backend id reason now d ≡ (ok tt, d')
      → IsKeyed backend d'
  failed-IsKeyed laws d d' id reason now keyed h = elim (Result-cases (load backend id d)) [
    | inl (task, p) ↦
        let (t, made, over) =
          record_failure-stored backend laws id now d d' task keyed p reason h in
        stored-IsKeyed d d' id t keyed
          (id-fail_task backend now reason task t made ∙ keyed id task p) over
    | inr (e, p) ↦
        let refused = (load_error-unchanged backend id d e reason pending now p).0 in absurd (cc)
  ]

  updated-IsKeyed :
      BackendLaws backend
      → (d d' : D) (id : Uuid) (state : TaskState) (now : T) → IsKeyed backend d
      → update_state backend id state now d ≡ (ok tt, d')
      → IsKeyed backend d'
  updated-IsKeyed laws d d' id state now keyed h = elim (Result-cases (load backend id d)) [
    | inl (task, p) ↦
        stored-IsKeyed d d' id (set_state backend now state task) keyed
          (id-set_state backend now state task ∙ keyed id task p)
          (update_state-stored backend laws id now d d' task keyed p state h)
    | inr (e, p) ↦
        let refused = (load_error-unchanged backend id d e [] state now p).1 in absurd (cc)
  ]

  rescheduled-IsKeyed :
      BackendLaws backend
      → (d d' : D) (id : Uuid) (now : T) → IsKeyed backend d
      → reschedule backend id now d ≡ (ok tt, d')
      → IsKeyed backend d'
  rescheduled-IsKeyed laws d d' id now keyed h = elim (Result-cases (load backend id d)) [
    | inl (task, p) ↦
        let (t, made, over) = reschedule-stored backend laws id now d d' task keyed p h in
        stored-IsKeyed d d' id t keyed
          (id-next_round backend now task.kind task t made ∙ keyed id task p) over
    | inr (e, p) ↦
        let refused = (load_error-unchanged backend id d e [] pending now p).2 in absurd (cc)
  ]

  -- In every database that adding, failing, updating, rescheduling and removing tasks lead to, each
  -- with the result `Ok`, from one without entries, if the database meets its laws, every task that can be loaded is stored under its own id.
  pub Built-IsKeyed : BackendLaws backend → {d : D} → Built d → IsKeyed backend d
  Built-IsKeyed laws (unused {d} no_entry) = unused-IsKeyed d no_entry
  Built-IsKeyed laws (added {d} {d'} agent expr input policy id now built h) =
      elim (Result-cases (parse_schedule backend expr)) [
        | inl (s, p) ↦
            stored-IsKeyed d d' id
              (new_task id agent (cron expr) input (backend.upcoming s now) policy)
              (Built-IsKeyed laws built) refl
              ((add_task-stored backend laws agent expr input policy id now d d').1 s p h)
        | inr (e, p) ↦
            let refused =
              (add_task-stored backend laws agent expr input policy id now d d').0 e p in
            absurd (cc)
      ]
  Built-IsKeyed laws (added_one_shot {d} {d'} agent input at policy id built h) =
      stored-IsKeyed d d' id (new_task id agent one_shot input (some at) policy)
        (Built-IsKeyed laws built) refl
        (add_one_shot-stored backend laws agent input at policy id d d' h)
  Built-IsKeyed laws (failed {d} {d'} id reason now built h) =
      failed-IsKeyed laws d d' id reason now (Built-IsKeyed laws built) h
  Built-IsKeyed laws (updated {d} {d'} id state now built h) =
      updated-IsKeyed laws d d' id state now (Built-IsKeyed laws built) h
  Built-IsKeyed laws (rescheduled {d} {d'} id now built h) =
      rescheduled-IsKeyed laws d d' id now (Built-IsKeyed laws built) h
  Built-IsKeyed laws (removed {d} {d'} id built h) =
      removed-IsKeyed laws d d' id (Built-IsKeyed laws built) h
