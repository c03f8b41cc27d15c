-- ===== src/Scheduler/Lifecycle/Implements.antt =====
-- That the writing operations of crates/roos-scheduler/src/scheduler.rs implement the abstract map.
use std.Path.{fun_ext}
use roos.Base.{
  ◌≡◌, refl, sym, ap, ◌∙◌, inl, inr, arith, Text, Option-cases, none, some, List, [], ◌∷◌, ok, err,
  Fault, raised, panicked, Result-cases,
}
use roos.Core.Types.{Uuid}
use roos.Scheduler.Task.{pending, TaskState, SchedulerError}
use roos.Scheduler.Backend.{Backend}
use roos.Scheduler.Store.{load, parse_schedule}
use roos.Scheduler.Store.Laws.{BackendLaws}
use roos.Scheduler.Lifecycle.{
  add_task_with_retry, fail_task, record_failure, update_state, next_round, reschedule,
}
use roos.Scheduler.Lifecycle.Effects.{
  load_error-unchanged, add_task-stored, add_one_shot-stored, record_failure-stored,
  update_state-stored, reschedule-stored,
}
use roos.Scheduler.Lifecycle.Keyed.{Built, unused, Built-IsKeyed}
use roos.Scheduler.Lifecycle.Operations.{
  Operation, add_cron, add_once, fail, set, next, remove, Tasks, perform, perform_all, specified,
  specified_all, tasks,
}
use roos.Scheduler.Lifecycle.Composed.{composed, composed-specified}
use roos.Scheduler.Lifecycle.Returned.{
  Returned, stored-put, removed-drop, performed, perform-Built, done-err,
}

module _ {D B S T : Type 0} (backend : Backend D B S T) (laws : BackendLaws backend) where
  module _ (d d' : D) (built : Built backend d) where
    fail-composed :
        (id : Uuid) (reason : Text) (now : T)
        → record_failure backend id reason now d ≡ (ok tt, d')
        → composed backend (fail id reason now) (tasks backend d) ≡ some (tasks backend d')
    unfolding composed
    fail-composed id reason now h = elim (Result-cases (load backend id d)) [
      | inl (task, p) ↦
          let (t, made, over) =
            record_failure-stored backend laws id now d d' task (Built-IsKeyed backend laws built) p
              reason h in
          rw (p, made) (ap some (stored-put backend d d' id t over))
      | inr (e, p) ↦
          let refused = (load_error-unchanged backend id d e reason pending now p).0 in absurd (cc)
    ]

    set-composed :
        (id : Uuid) (state : TaskState) (now : T)
        → update_state backend id state now d ≡ (ok tt, d')
        → composed backend (set id state now) (tasks backend d) ≡ some (tasks backend d')
    unfolding composed
    set-composed id state now h = elim (Result-cases (load backend id d)) [
      | inl (task, p) ↦
          let over =
            update_state-stored backend laws id now d d' task (Built-IsKeyed backend laws built) p
              state h in
          rw p (ap some (stored-put backend d d' id _ over))
      | inr (e, p) ↦
          let refused = (load_error-unchanged backend id d e [] state now p).1 in absurd (cc)
    ]

    next-composed :
        (id : Uuid) (now : T)
        → reschedule backend id now d ≡ (ok tt, d')
        → composed backend (next id now) (tasks backend d) ≡ some (tasks backend d')
    unfolding composed
    next-composed id now h = elim (Result-cases (load backend id d)) [
      | inl (task, p) ↦
          let (t, made, over) =
            reschedule-stored backend laws id now d d' task (Built-IsKeyed backend laws built) p
              h in
          rw (p, made) (ap some (stored-put backend d d' id t over))
      | inr (e, p) ↦
          let refused = (load_error-unchanged backend id d e [] pending now p).2 in absurd (cc)
    ]

    Returned-composed :
        (op : Operation T)
        → Returned backend op d d'
        → composed backend op (tasks backend d) ≡ some (tasks backend d')
    unfolding composed
    Returned-composed (add_cron agent expr input policy id now) h =
        let added = add_task-stored backend laws agent expr input policy id now d d' in
        elim (Result-cases (parse_schedule backend expr)) [
          | inl (s, p) ↦ rw p (ap some (stored-put backend d d' id _ (added.1 s p h)))
          | inr (e, p) ↦ let refused = added.0 e p in absurd (cc)
        ]
    Returned-composed (add_once agent at input policy id) h = ap some (
        stored-put backend d d' id _
          (add_one_shot-stored backend laws agent input at policy id d d' h))
    Returned-composed (fail id reason now) h = fail-composed id reason now h
    Returned-composed (set id state now) h = set-composed id state now h
    Returned-composed (next id now) h = next-composed id now h
    Returned-composed (remove id) h = ap some (removed-drop backend laws d d' id h)

  -- What the map refuses, the code refuses and writes nothing.
  refused-unchanged :
      (op : Operation T) (d : D)
      → composed backend op (tasks backend d) ≡ none
      → (e : Fault SchedulerError) × (perform backend op d ≡ (err e, d))
  unfolding perform composed record_failure
  refused-unchanged (add_cron agent expr input policy id now) d h =
      elim (Result-cases (parse_schedule backend expr)) [
        | inl (s, p) ↦ absurd (ground arith)
        | inr (e, p) ↦
            done-err (add_task_with_retry backend agent expr input policy id now) d e
              ((add_task-stored backend laws agent expr input policy id now d d).0 e p)
      ]
  refused-unchanged (add_once agent at input policy id) d h = absurd (cc)
  refused-unchanged (fail id reason now) d h = elim (Result-cases (load backend id d)) [
    | inl (task, p) ↦ elim (Option-cases (fail_task backend now reason task)) [
      | inl q ↦ (panicked, rw (p, q) refl)
      | inr (t, q) ↦ absurd (ground arith)
    ]
    | inr (e, p) ↦ (raised e, (load_error-unchanged backend id d e reason pending now p).0)
  ]
  refused-unchanged (set id state now) d h = elim (Result-cases (load backend id d)) [
    | inl (task, p) ↦ absurd (ground arith)
    | inr (e, p) ↦
        done-err (update_state backend id state now) d e
          (load_error-unchanged backend id d e [] state now p).1
  ]
  refused-unchanged (next id now) d h = elim (Result-cases (load backend id d)) [
    | inl (task, p) ↦ elim (Result-cases (next_round backend now task.kind task)) [
      | inl (t, q) ↦ absurd (ground arith)
      | inr (e, q) ↦ done-err (reschedule backend id now) d e (unfold reschedule in rw (p, q) refl)
    ]
    | inr (e, p) ↦
        done-err (reschedule backend id now) d e
          (load_error-unchanged backend id d e [] pending now p).2
  ]
  refused-unchanged (remove id) d h = absurd (cc)

  -- An operation on a database that operations which returned `Ok` built, if the database meets its
  -- laws. If the abstract map of the tasks that can be loaded refuses it (its cron expression does not
  -- parse, its task is missing or cannot be read, or the next time overflows), it fails and writes
  -- nothing. If it returns `Ok`, the tasks that can be loaded are those that the map specifies.
  pub perform-specified :
      (op : Operation T) (d d' : D)
      → Built backend d
      → (specified backend op (tasks backend d) ≡ none
          → (e : Fault SchedulerError) × (perform backend op d ≡ (err e, d)))
        × (perform backend op d ≡ (ok tt, d')
            → specified backend op (tasks backend d) ≡ some (tasks backend d'))
  perform-specified op d d' built =
      let same = composed-specified backend op (tasks backend d) in
      (
        λ refused. refused-unchanged op d (same ∙ refused),
        λ h. sym same ∙ Returned-composed d d' built op (performed backend op d d' h),
      )

  Built-perform_all :
      (ops : List (Operation T)) (d d' : D)
      → Built backend d
      → perform_all backend ops d ≡ (ok tt, d')
      → specified_all backend ops (tasks backend d) ≡ some (tasks backend d')
  unfolding perform_all specified_all
  Built-perform_all [] d d' built h = let same : d ≡ d' = cc in rw same refl
  Built-perform_all (op ∷ ops) d d' built h = elim (Result-cases (perform backend op d).0) [
    | inl (u, p) ↦
        let d'' = (perform backend op d).1 in
        let first : perform backend op d ≡ (ok tt, d'') = ap (λ r. (r, d'')) p in
        let made = performed backend op d d'' first in
        let rest : perform_all backend ops d'' ≡ (ok tt, d') = rw first at h in
        let same = composed-specified backend op (tasks backend d) in
        rw (sym same ∙ Returned-composed d d'' built op made)
          (Built-perform_all ops d'' d' (perform-Built backend op d d'' built made) rest)
    | inr (e, p) ↦ absurd (ground arith)
  ]

  -- Any sequence of adding, failing, updating, rescheduling and removing tasks in which each returns
  -- `Ok`, from a database without entries, if the database meets its laws: the map specifies the
  -- same sequence from the empty map, and it ends with the tasks that can be loaded.
  pub perform_all-specified :
      (ops : List (Operation T)) (d d' : D)
      → ((k : Uuid) → backend.sled.get d k ≡ ok none)
      → perform_all backend ops d ≡ (ok tt, d')
      → specified_all backend ops (λ k. none) ≡ some (tasks backend d')
  unfolding load
  perform_all-specified ops d d' no_entry h =
      let nothing : ◌≡◌ {A = Tasks T} (tasks backend d) (λ k. none) =
        fun_ext (λ k. rw (no_entry k) refl) in
      rw (sym nothing) (Built-perform_all ops d d' (unused no_entry) h)
