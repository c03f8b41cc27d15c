-- ===== src/Scheduler/Lifecycle/Retries.antt =====
-- The retry policy in `record_failure` of crates/roos-scheduler/src/scheduler.rs.
use roos.Base.{
  ℕ, ◌+◌, ◌^◌, ◌≤◌, ◌<◌, ◌≡◌, ◌≢◌, ap, ◌∙◌, inl, inr, ◌⊎◌, ◌↔◌, Text, Option, some, none, List, [],
  ◌∷◌, Option-cases, arith, length,
}
use roos.Base.Int.{as_i64}
use roos.Scheduler.Task.{pending, failed, ScheduledTask}
use roos.Scheduler.Delay.{delay_secs}
use roos.Scheduler.Backend.{Backend}
use roos.Scheduler.Lifecycle.{fail_task}

module _ {D B S T : Type 0} (backend : Backend D B S T) where
  -- What `record_failure` does to a task whose count does not wrap. While retries remain, the task
  -- is pending again after the delay of the new count, unless the addition panics; else it has
  -- failed for good with the reason and is not scheduled. The rest of the task is kept.
  pub fail_task-branches :
      (now : T) (reason : Text) (task t : ScheduledTask T)
      → task.retry_count + 1 < 2 ^ 32
      → fail_task backend now reason task ≡ some t
      → (t.retry_count ≡ task.retry_count + 1)
        × (t.id ≡ task.id)
        × (t.kind ≡ task.kind)
        × (t.retry_policy ≡ task.retry_policy)
        × (t.last_run ≡ task.last_run)
        × (((t.retry_count ≤ task.retry_policy.max_retries)
              × (t.state ≡ pending)
              × (t.next_run
                  ≡ backend.add_seconds now (as_i64 (delay_secs task.retry_policy t.retry_count)))
              × (t.next_run ≢ none))
            ⊎ ((task.retry_policy.max_retries < t.retry_count)
                × (t.state ≡ failed reason)
                × (t.next_run ≡ none)))
  unfolding fail_task
  fail_task-branches now reason task t fits h = ground arith

  -- Failures recorded one after the other, with nothing in between.
  unfoldable pub fail_all : List (T × Text) → ScheduledTask T → Option (ScheduledTask T)
  fail_all [] task = some task
  fail_all ((now, reason) ∷ rest) task = elim (fail_task backend now reason task) [
    | none ↦ none
    | some t ↦ fail_all rest t
  ]

  last_failure :
      (o : Option (ScheduledTask T)) {t : ScheduledTask T}
      → ◌≡◌ {A = Option (ScheduledTask T)} (elim o [ none ↦ none | some u ↦ some u ]) (some t)
      → o ≡ some t
  last_failure none h = cc
  last_failure (some u) h = h

  -- The count of `t` is that of `task` and `n`. `t` is pending exactly if that is at most
  -- `max_retries`, and else it has no time for a next run.
  abbrev pub CountsTo : ℕ → ScheduledTask T → ScheduledTask T → Type 0
  CountsTo n task t =
      (t.retry_count ≡ task.retry_count + n)
      × (t.retry_policy ≡ task.retry_policy)
      × ((t.state ≡ pending) ↔ (t.retry_count ≤ task.retry_policy.max_retries))
      × ((t.next_run ≡ none) ↔ (task.retry_policy.max_retries < t.retry_count))

  failed_once-state :
      (now : T) (reason : Text) (task t : ScheduledTask T)
      → task.retry_count + 1 < 2 ^ 32
      → fail_task backend now reason task ≡ some t
      → CountsTo 1 task t
  failed_once-state now reason task t fits h =
      let (count, _, _, policy, _, ends) = fail_task-branches now reason task t fits h in
      elim ends [
        | inl (within, p, _, n) ↦
            (count, policy, (λ _. within, λ _. p), (λ e. absurd (n e), λ e. absurd (omega arith)))
        | inr (over, p, n) ↦ (
          count,
          policy,
          (λ e. absurd (ground arith), λ e. absurd (omega arith)),
          (λ _. over, λ _. n),
        )
      ]

  -- From a task with the count `c`, after `n` further failures that raise no panic, `n` at least 1
  -- and `c + n` below 2^32: the count is `c + n` and the policy is kept, the task is pending exactly
  -- if `c + n` is at most `max_retries`, and it has no time for a next run exactly if `c + n` is
  -- more.
  pub fail_all-state :
      (failures : List (T × Text)) (task t : ScheduledTask T)
      → 1 ≤ length failures
      → task.retry_count + length failures < 2 ^ 32
      → fail_all failures task ≡ some t
      → CountsTo (length failures) task t
  unfolding fail_all
  fail_all-state [] task t some_failure fits h = elim some_failure [ ]
  fail_all-state ((now, reason) ∷ []) task t some_failure fits h =
      failed_once-state now reason task t (omega arith)
        (last_failure (fail_task backend now reason task) h)
  fail_all-state ((now, reason) ∷ second ∷ rest) task t some_failure fits h =
      elim (Option-cases (fail_task backend now reason task)) [
        | inl p ↦ absurd (ground arith)
        | inr (u, p) ↦
            let (count, _, _, policy, _, _) =
              fail_task-branches now reason task u (omega arith) p in
            let later : fail_all (second ∷ rest) u ≡ some t = ground arith in
            let ih = fail_all-state (second ∷ rest) u t (omega arith) (omega arith) later in
            let m : u.retry_policy.max_retries ≡ task.retry_policy.max_retries =
              ap (λ p. p.max_retries) policy in
            (omega (arith, ih.0), ih.1 ∙ policy, rw (← m) ih.2, rw (← m) ih.3)
      ]
