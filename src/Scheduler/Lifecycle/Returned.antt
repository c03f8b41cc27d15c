-- ===== src/Scheduler/Lifecycle/Returned.antt =====
-- What an operation of crates/roos-scheduler/src/scheduler.rs that returns `Ok` did to the database.
use std.Path.{fun_ext}
use roos.Base.{
  ◌≡◌, ◌≢◌, refl, subst, inl, inr, arith, Bool-cases, Text, ok, err, Fault, raised, Result-cases,
  nat_eq, nat_eq_iff,
}
use roos.Base.Action.{Action, pure, ◌>>◌}
use roos.Core.Types.{Uuid}
use roos.Scheduler.Task.{RetryPolicy, ScheduledTask, SchedulerError}
use roos.Scheduler.Backend.{Backend}
use roos.Scheduler.Store.{load, save, parse_schedule}
use roos.Scheduler.Store.Laws.{BackendLaws}
use roos.Scheduler.Lifecycle.{
  add_task_with_retry, add_one_shot_with_retry, record_failure, update_state, reschedule,
  remove_task,
}
use roos.Scheduler.Lifecycle.Effects.{StoredOver}
use roos.Scheduler.Lifecycle.Keyed.{
  Built, added, added_one_shot, failed, updated, rescheduled, removed, remove_task-inv,
}
use roos.Scheduler.Lifecycle.Operations.{
  Operation, add_cron, add_once, fail, set, next, remove, put, drop, done, perform, tasks,
}

done-ok :
    {D A : Type 0} (m : Action D SchedulerError A) (d d' : D)
    → done m d ≡ (ok tt, d')
    → (a : A) × (m d ≡ (ok a, d'))
done-ok m d d' h = elim (Result-cases (m d).0) [
  | inl (a, p) ↦ (a, ground arith)
  | inr (e, p) ↦ absurd (ground arith)
]

pub done-err :
    {D A : Type 0} (m : Action D SchedulerError A) (d : D) (e : SchedulerError)
    → m d ≡ (err e, d)
    → (x : Fault SchedulerError) × (done m d ≡ (err x, d))
done-err m d e h = (raised e, rw h refl)

-- `m; Ok(id)`
ending_id :
    {D : Type 0} (m : Action D SchedulerError (Unit {0})) (id a : Uuid) (d d' : D)
    → (do m; pure id) d ≡ (ok a, d')
    → a ≡ id
ending_id m id a d d' h = elim (Result-cases (m d).0) [
  | inl (u, p) ↦ ground arith
  | inr (e, p) ↦ absurd (ground arith)
]

module _ {D B S T : Type 0} (backend : Backend D B S T) where
  pub stored-put :
      (d d' : D) (id : Uuid) (t : ScheduledTask T)
      → StoredOver backend d d' id t
      → put (tasks backend d) id t ≡ tasks backend d'
  stored-put d d' id t (there, others) = fun_ext (λ k. elim (Bool-cases (nat_eq id k)) [
    | inl same ↦
        let e : id ≡ k = (nat_eq_iff id k).0 same in
        let here : load backend k d' ≡ ok t = subst (λ j. load backend j d' ≡ ok t) e there in
        rw (same, here) refl
    | inr other ↦
        let apart : id ≢ k = λ e. absurd (ground (arith, other, nat_eq_iff id k)) in
        rw (other, others k apart) refl
  ])

  pub removed-drop :
      BackendLaws backend
      → (d d' : D) (id : Uuid) → remove_task backend id d ≡ (ok tt, d')
      → drop (tasks backend d) id ≡ tasks backend d'
  unfolding load
  removed-drop laws d d' id h =
      let gone = laws.stored.get-remove d d' id in
      fun_ext (λ k. elim (Bool-cases (nat_eq id k)) [
        | inl same ↦ rw (same, gone k (remove_task-inv backend id d d' h), same) refl
        | inr other ↦ rw (other, gone k (remove_task-inv backend id d d' h), other) refl
      ])

  add_cron-id :
      (agent expr input : Text) (policy : RetryPolicy) (id a : Uuid) (now : T) (d d' : D)
      → add_task_with_retry backend agent expr input policy id now d ≡ (ok a, d')
      → a ≡ id
  unfolding add_task_with_retry
  add_cron-id agent expr input policy id a now d d' h =
      elim (Result-cases (parse_schedule backend expr)) [
        | inl (s, p) ↦ ending_id (save backend _) id a d d' (rw p at h)
        | inr (e, p) ↦ absurd (ground arith)
      ]

  add_once-id :
      (agent : Text) (at : T) (input : Text) (policy : RetryPolicy) (id a : Uuid) (d d' : D)
      → add_one_shot_with_retry backend agent at input policy id d ≡ (ok a, d')
      → a ≡ id
  unfolding add_one_shot_with_retry
  add_once-id agent at input policy id a d d' h = ending_id (save backend _) id a d d' h

  -- The method of the operation returns `Ok`, and leaves the database `d'`.
  abbrev pub Returned : Operation T → D → D → Type 0
  Returned (add_cron agent expr input policy id now) d d' =
      add_task_with_retry backend agent expr input policy id now d ≡ (ok id, d')
  Returned (add_once agent at input policy id) d d' =
      add_one_shot_with_retry backend agent at input policy id d ≡ (ok id, d')
  Returned (fail id reason now) d d' = record_failure backend id reason now d ≡ (ok tt, d')
  Returned (set id state now) d d' = update_state backend id state now d ≡ (ok tt, d')
  Returned (next id now) d d' = reschedule backend id now d ≡ (ok tt, d')
  Returned (remove id) d d' = remove_task backend id d ≡ (ok tt, d')

  pub performed :
      (op : Operation T) (d d' : D) → perform backend op d ≡ (ok tt, d') → Returned op d d'
  unfolding perform
  performed (add_cron agent expr input policy id now) d d' h =
      let (a, r) = done-ok (add_task_with_retry backend agent expr input policy id now) d d' h in
      subst (λ k. add_task_with_retry backend agent expr input policy id now d ≡ (ok k, d'))
        (add_cron-id agent expr input policy id a now d d' r) r
  performed (add_once agent at input policy id) d d' h =
      let (a, r) = done-ok (add_one_shot_with_retry backend agent at input policy id) d d' h in
      subst (λ k. add_one_shot_with_retry backend agent at input policy id d ≡ (ok k, d'))
        (add_once-id agent at input policy id a d d' r) r
  performed (fail id reason now) d d' h = h
  performed (set id state now) d d' h = (done-ok (update_state backend id state now) d d' h).1
  performed (next id now) d d' h = (done-ok (reschedule backend id now) d d' h).1
  performed (remove id) d d' h = (done-ok (remove_task backend id) d d' h).1

  -- Each call that returns `Ok` leads from one built database to another.
  pub perform-Built :
      (op : Operation T) (d d' : D) → Built backend d → Returned op d d' → Built backend d'
  perform-Built (add_cron agent expr input policy id now) d d' built h =
      added agent expr input policy id now built h
  perform-Built (add_once agent at input policy id) d d' built h =
      added_one_shot agent input at policy id built h
  perform-Built (fail id reason now) d d' built h = failed id reason now built h
  perform-Built (set id state now) d d' built h = updated id state now built h
  perform-Built (next id now) d d' built h = rescheduled id now built h
  perform-Built (remove id) d d' built h = removed id built h
