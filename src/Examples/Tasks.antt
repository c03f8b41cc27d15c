-- ===== src/Examples/Tasks.antt =====
-- Scheduled tasks in a small database, with seconds as times and a period as a parsed schedule.
use roos.Base.{
  ℕ, suc, ◌+◌, ◌-◌, ◌≡◌, refl, arith, leb, Text, codes, strip_prefix, Option, none, some, List, [],
  ◌∷◌, Result, ok, err, ℕ_eq,
}
use roos.Base.Dict
use roos.Base.Dict.{Dict}
use roos.Base.Int.{ℤ, pos, negsuc, as_i64}
use roos.Scheduler.Task.{
  ScheduledTask, RetryPolicy, exponential, one_shot, cron, failed, default, pending,
}
use roos.Scheduler.Backend.{Backend}
use roos.Scheduler.Delay.{delay_secs, strategy_delay, back_off}
use roos.Scheduler.Store.{save, load, list_tasks, parse_schedule}
use roos.Scheduler.Store.Laws.{BackendLaws, IsKeyed}
use roos.Scheduler.Lifecycle.{
  new_task, fail_task, record_failure, due_tasks, add_task_with_retry, add_one_shot_with_retry,
  is_due,
}
use roos.Scheduler.Lifecycle.Retries.{fail_all, fail_all-state, CountsTo}
use roos.Scheduler.Lifecycle.Operations.{
  Operation, add_cron, add_once, fail, perform, perform_all, specified, specified_all, tasks,
}
use roos.Scheduler.Lifecycle.Implements.{perform-specified, perform_all-specified}
use roos.Scheduler.Lifecycle.Keyed.{Built, unused, added, added_one_shot, Built-IsKeyed}
use roos.Scheduler.Lifecycle.Due.{due_tasks-exact}
use roos.Scheduler.Lifecycle.LateRetries.{late_retry_is_negative}
use roos.Examples.Database.{table, table_laws, plain, plain_laws}
use mathlib.Core.List.{Memᴰ}

-- A parsed schedule is its period less one second.
abbrev every_minute : Option Text → Result Text ℕ
every_minute none = err (codes "invalid expression")
every_minute (some rest) = ok 59

abbrev moved : ℕ → ℤ → Option ℕ
moved t (pos n) = some (t + n)
moved t (negsuc n) = some (t - suc n)

abbrev backend : Backend (Dict ℕ (ScheduledTask ℕ)) (ScheduledTask ℕ) ℕ ℕ
backend = record {
  sled = table;
  codec = plain;
  from_str = λ e. every_minute (strip_prefix (codes "0 ") e);
  upcoming = λ s t. some (t + suc s);
  at_most = leb;
  add_seconds = moved;
}

backend_laws : BackendLaws backend
backend_laws = record { stored = table_laws; encoded = plain_laws }

abbrev twice : RetryPolicy
twice = record { max_retries = 2; retry_delay_seconds = 60; strategy = exponential }

abbrev report : ScheduledTask ℕ
report = new_task 7 (codes "reporter") one_shot (codes "report") (some 100) twice

abbrev one_task : Dict ℕ (ScheduledTask ℕ)
one_task = (7, report) ∷ []

fail_all-state_example :
    CountsTo backend 3 report
      (record report { retry_count = 3; state = failed (codes "c"); next_run = none })
unfolding fail_all fail_task delay_secs as_i64 strategy_delay back_off
fail_all-state_example =
    fail_all-state backend ((100, codes "a") ∷ (200, codes "b") ∷ (400, codes "c") ∷ []) report _
      (omega arith) (omega arith) refl

due_tasks-exact_example : Memᴰ report (report ∷ [])
unfolding due_tasks load codes list_tasks is_due Dict.get
due_tasks-exact_example =
    (due_tasks-exact backend backend_laws 100 one_task (report ∷ []) refl).0 7 report 100 refl refl
      refl refl

abbrev nightly : ScheduledTask ℕ
nightly = new_task 8 (codes "cleaner") (cron (codes "0 0 * * *")) (codes "clean") (some 160) default

abbrev two_tasks : Dict ℕ (ScheduledTask ℕ)
two_tasks = (8, nightly) ∷ one_task

built : Built backend two_tasks
unfolding add_task_with_retry add_one_shot_with_retry parse_schedule save codes strip_prefix
    Dict.insert Dict.remove Dict.get
built =
    added (codes "cleaner") (codes "0 0 * * *") (codes "clean") default 8 100
      (added_one_shot (codes "reporter") (codes "report") 100 twice 7 (unused {d = []} (λ k. refl))
        refl)
      refl

Built-IsKeyed_example : IsKeyed backend two_tasks
Built-IsKeyed_example = Built-IsKeyed backend backend_laws built

perform-specified_example :
    specified backend (fail 7 (codes "down") 200) (tasks backend two_tasks)
    ≡ some (
        tasks backend
          (Dict.insert two_tasks 7 (record report { retry_count = 1; next_run = some 260 })))
unfolding perform record_failure load fail_task Dict.get Dict.insert Dict.remove as_i64 delay_secs
    back_off save
perform-specified_example =
    (perform-specified backend backend_laws (fail 7 (codes "down") 200) two_tasks
        (Dict.insert two_tasks 7 (record report { retry_count = 1; next_run = some 260 })) built).1
      refl

abbrev additions : List (Operation ℕ)
additions =
    add_once (codes "reporter") 100 (codes "report") twice 7
    ∷ add_cron (codes "cleaner") (codes "0 0 * * *") (codes "clean") default 8 100
    ∷ []

perform_all-specified_example :
    specified_all backend additions (λ k. none) ≡ some (tasks backend two_tasks)
unfolding perform perform_all add_task_with_retry add_one_shot_with_retry parse_schedule save codes
    strip_prefix Dict.insert Dict.remove Dict.get
perform_all-specified_example =
    perform_all-specified backend backend_laws additions [] two_tasks (λ k. refl) refl

-- A task that failed 62 times, with retries left.
abbrev stubborn : ScheduledTask ℕ
stubborn = record report {
  retry_count = 62;
  retry_policy = record { max_retries = 100; retry_delay_seconds = 60; strategy = exponential };
}

abbrev again : ScheduledTask ℕ
again = record stubborn { retry_count = 63; next_run = some 199 }

stubborn-IsKeyed : IsKeyed backend ((7, stubborn) ∷ [])
unfolding load Dict.get
stubborn-IsKeyed k t h = ground arith

late_retry_is_negative_example :
    (t : ScheduledTask ℕ) × (load backend 7 ((7, again) ∷ []) ≡ ok t)
    × (t.retry_count ≡ 63)
    × (t.state ≡ pending)
    × (t.next_run ≡ some 199)
unfolding load record_failure fail_task Dict.get Dict.insert Dict.remove as_i64 delay_secs back_off
    save strategy_delay
late_retry_is_negative_example =
    late_retry_is_negative backend backend_laws ((7, stubborn) ∷ []) ((7, again) ∷ []) 7
      (codes "down") 200 stubborn stubborn-IsKeyed refl refl (omega arith) (omega arith)
      (omega arith) (omega arith) refl
