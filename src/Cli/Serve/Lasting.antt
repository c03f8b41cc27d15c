-- ===== src/Cli/Serve/Lasting.antt =====
-- What lasts while crates/roos-cli/src/cmd/serve.rs serves, whatever the requests and the signals.
use mathlib.Core.List.{Memᴰ}
use roos.Base.{
  length, suc, ◌≡◌, refl, ap, subst, ◌∙◌, arith, true, false, Bool, Text, some, List, [], ◌∷◌, ◌++◌,
  ok, map, keep_if, ℕ_eq,
}
use roos.Base.Dict
use roos.Base.Dict.{get-insert}
use roos.Core.Config.{RoosConfig}
use roos.Core.Types.{Uuid}
use roos.Scheduler.Backend.{Backend}
use roos.Scheduler.Lifecycle.{due_tasks, is_due}
use roos.Scheduler.Lifecycle.Due.{due_tasks-exact}
use roos.Scheduler.Store.{load, list_tasks}
use roos.Scheduler.Store.Laws.{BackendLaws}
use roos.Scheduler.Task
use roos.Scheduler.Task.{ScheduledTask}
use roos.Trigger.Server.{register_agent, Web}
use roos.Trigger.Server.Waiting.{AllWait, KeepsIds, handle-waiting}
use roos.Trigger.Webhook.{Crypto}
use roos.Cli.Serve.{
  Service, Event, request, second_passed, sigint, sigterm, sighup, Shown, reloading, tasks_due,
  task_due, tick, step, started, answer, serving,
}

module _ {ℓ} {A B : Type ℓ} where
  mem-map : (f : A → B) (a : A) (xs : List A) → Memᴰ a xs → Memᴰ (f a) (map f xs)
  mem-map f a [] m = elim m [ ]
  mem-map f a (x ∷ xs) (Memᴰ.head e) = Memᴰ.head (ap f e)
  mem-map f a (x ∷ xs) (Memᴰ.tail m) = Memᴰ.tail (mem-map f a xs m)

-- Whether the service is up after the events.
unfoldable pub stays_up : {T : Type 0} → List (Event T) → Bool
stays_up [] = true
stays_up (sigint ∷ events) = false
stays_up (sigterm ∷ events) = false
stays_up (event ∷ events) = stays_up events

module _ {D B S T : Type 0} (backend : Backend D B S T) where
  -- A task that the scheduler lists among the due ones at `now` is in the log of that look.
  tick-due :
      BackendLaws backend
      → (now nr : T) (d : D) (id : Uuid) (t : ScheduledTask T) (all : List (ScheduledTask T))
      → list_tasks backend d ≡ ok all
      → load backend id d ≡ ok t
      → t.state ≡ Task.pending
      → t.next_run ≡ some nr
      → backend.at_most nr now ≡ true
      → Memᴰ (task_due t) (tick backend now d)
  unfolding tick due_tasks
  tick-due laws now nr d id t all listed found waits next_run late =
      let due = keep_if (is_due backend now) all in
      let h : due_tasks backend now d ≡ ok due = ground arith in
      let m = (due_tasks-exact backend laws now d due h).0 id t nr found waits next_run late in
      rw listed (mem-map task_due t due m)

module _ {D B S T J G M : Type 0} (backend : Backend D B S T) (web : Web J G)
    (crypto : Crypto M) where
  -- Whatever happens before and after, as long as the service is not shut down, each look at the
  -- scheduler at or after the next run that a pending task had at the start reports that task: what
  -- the look shows, behind one thing for each event before it, is a log that has the task.
  -- The conditions: the tasks can be listed and the database meets its laws.
  pub due-reported :
      BackendLaws backend
      → (now nr : T) (service : Service D J G) (id : Uuid) (t : ScheduledTask T)
        (all : List (ScheduledTask T)) (before after : List (Event T))
      → list_tasks backend service.scheduler ≡ ok all
      → load backend id service.scheduler ≡ ok t
      → t.state ≡ Task.pending
      → t.next_run ≡ some nr
      → backend.at_most nr now ≡ true
      → stays_up before ≡ true
      → (shown : List (Shown J)) × (log : List (Uuid × Text)) × (rest : List (Shown J)) × (length
            shown
          ≡ length before)
        × (serving backend web crypto (before ++ second_passed now ∷ after) service
            ≡ shown ++ tasks_due log ∷ rest)
        × Memᴰ (t.id, t.agent) log
  unfolding serving step answer stays_up
  due-reported laws now nr service id t all [] after listed found waits next_run late up = (
    [],
    _,
    _,
    refl,
    refl,
    tick-due backend laws now nr service.scheduler id t all listed found waits next_run late,
  )
  due-reported laws now nr service id t all (request route req ∷ events) after listed found waits
        next_run late up =
      let (shown, log, rest, count, split, there) =
        due-reported laws now nr (answer web crypto route req service).1 id t all events after
          listed found waits next_run late up in
      (
        (answer web crypto route req service).0 ∷ shown,
        log,
        rest,
        ap suc count,
        ap (λ l. (answer web crypto route req service).0 ∷ l) split,
        there,
      )
  due-reported laws now nr service id t all (second_passed past ∷ events) after listed found waits
        next_run late up =
      let (shown, log, rest, count, split, there) =
        due-reported laws now nr service id t all events after listed found waits next_run late
          up in
      (
        tasks_due (tick backend past service.scheduler) ∷ shown,
        log,
        rest,
        ap suc count,
        ap (λ l. tasks_due (tick backend past service.scheduler) ∷ l) split,
        there,
      )
  due-reported laws now nr service id t all (sighup ∷ events) after listed found waits next_run late
        up =
      let (shown, log, rest, count, split, there) =
        due-reported laws now nr service id t all events after listed found waits next_run late
          up in
      (reloading ∷ shown, log, rest, ap suc count, ap (λ l. reloading ∷ l) split, there)
  due-reported laws now nr service id t all (sigint ∷ events) after listed found waits next_run late
        up =
      absurd (cc)
  due-reported laws now nr service id t all (sigterm ∷ events) after listed found waits next_run
        late up =
      absurd (cc)

  -- The services that events lead to, one after the other.
  pub data Reached : Service D J G → Service D J G → Type 0 where
    here : {service : Service D J G} → Reached service service
    after :
        {first service next : Service D J G} (event : Event T)
        → Reached first service
        → (step backend web crypto event service).1 ≡ some next
        → Reached first next

  -- The database of the scheduler is as it was, no run that was recorded is lost, and if every run
  -- waits at the start, every run waits.
  abbrev pub Lasts : Service D J G → Service D J G → Type 0
  Lasts first service =
      (service.scheduler ≡ first.scheduler)
      × (AllWait first.state → AllWait service.state)
      × KeepsIds first.state service.state

  step-Lasts :
      (event : Event T) (service next : Service D J G)
      → (step backend web crypto event service).1 ≡ some next
      → Lasts service next
  unfolding step answer
  step-Lasts (request route req) service next h =
      let after_request : (answer web crypto route req service).1 ≡ next = cc in
      let kept = handle-waiting web service.state crypto service.server route req in
      subst (Lasts service) after_request (refl, kept.0, kept.1)
  step-Lasts (second_passed now) service next h =
      let same : service ≡ next = cc in
      subst (Lasts service) same (refl, (λ w. w), λ id run found. (run, found))
  step-Lasts sighup service next h =
      let same : service ≡ next = cc in
      subst (Lasts service) same (refl, (λ w. w), λ id run found. (run, found))
  step-Lasts sigint service next h = absurd (cc)
  step-Lasts sigterm service next h = absurd (cc)

  reached-Lasts : {first service : Service D J G} → Reached first service → Lasts first service
  reached-Lasts here = (refl, (λ w. w), λ id run found. (run, found))
  reached-Lasts (after {first} {service} {next} event path h) =
      let (same, waits, kept) = reached-Lasts path in
      let (same', waits', kept') = step-Lasts event service next h in
      (
        same' ∙ same,
        λ w. waits' (waits w),
        λ id run found. let (run', found') = kept id run found in kept' id run' found',
      )

  -- From the start of the service, whatever requests, looks at the scheduler and signals there are:
  -- the database of the scheduler stays as it was opened, every recorded run is pending and has no
  -- output, and stays recorded under its id.
  pub served-waits :
      (rng : G) (cfg : RoosConfig) (scheduler : D) {service later : Service D J G}
      → Reached (started rng cfg scheduler) service
      → Reached service later
      → (later.scheduler ≡ scheduler) × AllWait later.state × KeepsIds service.state later.state
  unfolding register_agent Dict.get
  served-waits rng cfg scheduler path path' =
      let (same, waits, _) = reached-Lasts path in
      let (same', waits', kept) = reached-Lasts path' in
      (same' ∙ same, waits' (waits λ id run found. absurd (cc)), kept)
