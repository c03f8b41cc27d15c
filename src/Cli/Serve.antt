-- ===== src/Cli/Serve.antt =====
-- crates/roos-cli/src/cmd/serve.rs: the service that answers triggers and looks at the scheduler once
-- a second. What happens outside is a list of events, in the order in which they are handled. `run`
-- has the three tasks that it starts, each on its share of the events: `serve_with_shutdown` of the
-- trigger server, the looks at the scheduler and `handle_signals`. `serving` is the same three as one
-- task, event by event: a handler takes the lock of the shared state at most once and nothing else is
-- shared, so that a request can be one step. The warnings of `--daemonize` and the tracing of start
-- and end are left out.
pub mod Lasting
pub mod Accepted
pub mod Joint
use roos.Base.{
  ℕ, Text, codes, show_nat, Option, none, some, List, [], ◌∷◌, ◌++◌, Result, ok, err, map,
}
use roos.Base.Dict
use roos.Core.Config.{Host, RoosConfig, ConfigError, from_file}
use roos.Core.Types.{Uuid}
use roos.Scheduler.Backend.{Backend}
use roos.Scheduler.Lifecycle.{due_tasks}
use roos.Scheduler.Store.{open_at}
use roos.Scheduler.Task
use roos.Scheduler.Task.{ScheduledTask, SchedulerError}
use roos.Trigger.Http.{Request, StatusCode}
use roos.Trigger.Server
use roos.Trigger.Server.Serve.{serve_with_shutdown}
use roos.Trigger.Server.{AppState, TriggerServer, Response, Route, Web, register_agent, handle}
use roos.Trigger.Webhook.{Crypto}
use roos.Cli.Run.{failed_to_load}

unfoldable pub bind_addr : ℕ → Text
unfolding codes show_nat
bind_addr port = codes "0.0.0.0:" ++ show_nat port

-- `Path::parent` and `Path::join`. The path is text, so its `to_str` is never `None`.
pub record Paths : Type 0 where
  pub parent : Text → Option Text
  pub join : Text → Text → Text

abbrev pub parent_or_here : Option Text → Text
parent_or_here none = codes "."
parent_or_here (some dir) = dir

unfoldable pub sched_db_path : Paths → Text → Text
unfolding codes
sched_db_path paths config_path =
    paths.join (parent_or_here (paths.parent config_path)) (codes "roos-scheduler.db")

-- What the tasks of the service share: the server's state and the scheduler's database.
pub record Service (D J G : Type 0) : Type 0 where
  pub server : TriggerServer
  pub state : AppState J G
  pub scheduler : D

-- A request, the end of a second's sleep at a time, or a signal.
pub data Event (T : Type 0) : Type 0 where
  request : Route → Request → Event T
  second_passed : T → Event T
  sigint sigterm sighup : Event T

-- What an event shows outside: an answer, or what is logged.
pub data Shown (J : Type 0) : Type 0 where
  answered : Result StatusCode (Response J) → Shown J
  tasks_due : List (Uuid × Text) → Shown J
  reloading : Shown J
  shutting_down : Shown J

abbrev pub task_due : {T : Type 0} → ScheduledTask T → Uuid × Text
task_due t = (t.id, t.agent)

-- `if let Ok(due)`
abbrev pub logged :
    {T : Type 0} → Result SchedulerError (List (ScheduledTask T)) → List (Uuid × Text)
logged (ok due) = map task_due due
logged (err e) = []

-- One look at the scheduler.
unfoldable pub tick : {D B S T : Type 0} → Backend D B S T → T → D → List (Uuid × Text)
unfolding due_tasks
tick backend now scheduler = logged (due_tasks backend now scheduler)

-- What the trigger server is brought: the requests, and the signals that shut it down.
unfoldable pub brought : {T : Type 0} → List (Event T) → List (Option (Route × Request))
brought [] = []
brought (request route req ∷ events) = some (route, req) ∷ brought events
brought (second_passed now ∷ events) = brought events
brought (sighup ∷ events) = brought events
brought (sigint ∷ events) = none ∷ brought events
brought (sigterm ∷ events) = none ∷ brought events

-- What `handle_signals` logs. It returns when it has sent the signal to shut down.
unfoldable pub handle_signals : {J T : Type 0} → List (Event T) → List (Shown J)
handle_signals [] = []
handle_signals (request route req ∷ events) = handle_signals events
handle_signals (second_passed now ∷ events) = handle_signals events
handle_signals (sighup ∷ events) = reloading ∷ handle_signals events
handle_signals (sigint ∷ events) = shutting_down ∷ []
handle_signals (sigterm ∷ events) = shutting_down ∷ []

-- What the task with the scheduler logs: a look at every second that passes, until it is stopped.
unfoldable pub looks : {D B S T J : Type 0} → Backend D B S T → D → List (Event T) → List (Shown J)
unfolding tick
looks backend scheduler [] = []
looks backend scheduler (request route req ∷ events) = looks backend scheduler events
looks backend scheduler (second_passed now ∷ events) =
    tasks_due (tick backend now scheduler) ∷ looks backend scheduler events
looks backend scheduler (sighup ∷ events) = looks backend scheduler events
looks backend scheduler (sigint ∷ events) = []
looks backend scheduler (sigterm ∷ events) = []

-- What the three tasks of a service show.
pub record Served (J : Type 0) : Type 0 where
  pub answers : List (Result StatusCode (Response J))
  pub due : List (Shown J)
  pub signals : List (Shown J)

module _ {D J G M : Type 0} (web : Web J G) (crypto : Crypto M) where
  unfoldable pub answer : Route → Request → Service D J G → Shown J × Service D J G
  unfolding handle
  answer route req service =
      let (r, state') = handle web crypto service.server route req service.state in
      (answered r, record service { state = state' })

module _ {D B S T J G M : Type 0} (backend : Backend D B S T) (web : Web J G)
    (crypto : Crypto M) where
  -- What one event shows, and the service after it, with the three tasks as one. A service that is shut down handles none.
  unfoldable pub step : Event T → Service D J G → Shown J × Option (Service D J G)
  unfolding answer tick
  step (request route req) service =
      let (r, service') = answer web crypto route req service in (r, some service')
  step (second_passed now) service = (tasks_due (tick backend now service.scheduler), some service)
  step sighup service = (reloading, some service)
  step sigint service = (shutting_down, none)
  step sigterm service = (shutting_down, none)

  -- What the events show, until the service is shut down.
  unfoldable pub serving : List (Event T) → Service D J G → List (Shown J)
  unfolding step
  serving [] service = []
  serving (event ∷ events) service =
      let (shown, next) = step event service in
      shown ∷ elim next [ none ↦ [] | some service' ↦ serving events service' ]

-- `{e}` of a `SchedulerError`, with how a `Uuid` is printed.
unfoldable pub failed_to_open : (Uuid → Text) → SchedulerError → Text
unfolding codes Task.display
failed_to_open show_uuid e = codes "Failed to open scheduler store: " ++ Task.display show_uuid e

unfoldable pub server_error : Text → Text
unfolding codes
server_error e = codes "Server error: " ++ e

abbrev pub started : {D J G : Type 0} → G → RoosConfig → D → Service D J G
started rng cfg scheduler = record {
  server = Server.new;
  state = register_agent cfg.agent.name (record { runs = Dict.empty; agents = []; rng = rng });
  scheduler = scheduler;
}

-- `sled_open` opens the scheduler's database, `bind` the address, and `rng` is the source of the ids.
module _ {D B S T J G M : Type 0} (backend : Backend D B S T) (web : Web J G) (crypto : Crypto M)
    (paths : Paths) (sled_open : Text → Result Text D) (bind : Text → Result Text (Unit {0}))
    (show_uuid : Uuid → Text) (rng : G) where
  -- The end of the server, with what the other two tasks log until then.
  abbrev pub ended :
      Result Text (List (Result StatusCode (Response J)))
      → List (Event T)
      → D
      → Result Text (Served J)
  ended (err e) events scheduler = err (server_error e)
  ended (ok rs) events scheduler = ok (record {
    answers = rs;
    due = looks backend scheduler events;
    signals = handle_signals events;
  })

  abbrev pub bound : ℕ → Service D J G → List (Event T) → Result Text (Served J)
  bound port service events =
      let (r, state') =
        serve_with_shutdown web crypto service.server bind (bind_addr port) (brought events)
          service.state in
      ended r events service.scheduler

  abbrev pub opened :
      ℕ → RoosConfig → Result SchedulerError D → List (Event T) → Result Text (Served J)
  opened port cfg (err e) events = err (failed_to_open show_uuid e)
  opened port cfg (ok scheduler) events = bound port (started rng cfg scheduler) events

  abbrev pub configured :
      ℕ
      → Text
      → Option (Result ConfigError RoosConfig)
      → List (Event T)
      → Option (Result Text (Served J))
  configured port config_path none events = none
  configured port config_path (some (err e)) events = some (err (failed_to_load config_path e))
  configured port config_path (some (ok cfg)) events =
      some (opened port cfg (open_at sled_open (sched_db_path paths config_path)) events)

  -- `none` is a configuration that is not read to its end.
  unfoldable pub run : Host → ℕ → Text → List (Event T) → Option (Result Text (Served J))
  unfolding from_file serve_with_shutdown brought looks handle_signals
  run host port config_path events = configured port config_path (from_file host config_path) events
