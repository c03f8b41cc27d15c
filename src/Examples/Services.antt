-- ===== src/Examples/Services.antt =====
-- The commands of the command line.
use mathlib.Core.List.{Memᴰ}
use roos.Base.{
  find, join, length, show_nat, subst, ℕ, suc, ◌%◌, ◌^◌, ◌≡◌, refl, Text, codes, ◌++◌, none, some,
  List, [], ◌∷◌, ok, err, leb, ◌+◌, text_eq, Option, arith,
}
use roos.Base.Dict
use roos.Base.Dict.{Dict}
use roos.Core.Config.{Host, RoosConfig, from_file, parse, interpolate_env_vars, interpolate_rest}
use roos.Core.Types.{Uuid}
use roos.Orchestrator.Calls.{Platform}
use roos.Providers.Http.{Http, exchange, on_status}
use roos.MemoryStore.InMemory
use roos.Orchestrator.Calls
use roos.Orchestrator.Loop
use roos.Orchestrator.State
use roos.Core.Provider
use roos.Core.Types
use roos.Providers.OpenAi
use roos.Providers.Http.Counts.{Counts}
use roos.Scheduler.Backend.{Backend}
use roos.Scheduler.Task.{ScheduledTask, one_shot, default}
use roos.Scheduler.Lifecycle.{new_task}
use roos.Scheduler.Store.{load, list_tasks}
use roos.Scheduler.Store.Laws.{BackendLaws}
use roos.Trigger.Http.{Request}
use roos.Trigger.Server.{
  Web, TriggerRequest, to_trigger, on_trigger, register_agent, runs_handler, pending, found,
}
use roos.Trigger.Server.Waiting.{AllWait, KeepsIds}
use roos.Trigger.Webhook.{Crypto}
use roos.Cli.Run.{Session, Net, run, select_provider, agent_loop, statistics, completion_config}
use roos.Cli.Run.Ends.{Ended, run-Ended}
use roos.Cli.Serve.{
  Shown, Service, request, second_passed, sighup, started, step, tasks_due, serving,
}
use roos.Cli.Serve.Lasting.{stays_up, due-reported, Reached, here, after, served-waits}
use roos.Cli.Serve.Accepted.{accepted-found}
use roos.Examples.Database.{table, table_laws, plain, plain_laws}

-- A configuration with another limit than the command has.
abbrev cfg : RoosConfig
cfg = record {
  agent = record { name = codes "writer"; description = codes "Writes."; max_steps = some 3 };
  provider = record {
    provider_type = codes "openai";
    model = codes "m";
    api_key = some (codes "k");
    max_tokens = none;
    temperature = none;
  };
  memory = none;
}

abbrev host : Host
host = record {
  env_var = λ name. some (codes "key");
  from_str = λ t. ok cfg;
  read_to_string = λ path. ok (codes "model");
}

-- The world counts the requests.
abbrev busy : {R A : Type 0} → Http ℕ ℕ R A
busy = record {
  post = λ auth url body w. (ok 503, suc w);
  status = λ h. h;
  json = λ h w. (err (codes "no body"), w);
  error_message = λ h w. (none, w);
}

busy-Counts : {R A : Type 0} → Counts (busy {R = R} {A = A}) (λ w. w)
busy-Counts = record {
  posts = λ auth url body w. refl;
  reads = λ h w. refl;
  reads_error = λ h w. refl;
}

abbrev env : Platform (Session ℕ) Text ℕ Text
env = record {
  utc_now = λ w. 0;
  elapsed_ms = λ v w. 0;
  schemas = record { compile = ok; validate = λ c j. ok tt };
  show_uuid = λ id. codes "run";
}

-- A server that answers every request with one text.
abbrev reply : OpenAi.ApiResponse
reply = record {
  choices =
      record {
        message = record { content = some (codes "hello"); tool_calls = [] };
        finish_reason = codes "stop";
      }
      ∷ [];
  model = codes "m";
  usage = record { prompt_tokens = 1; completion_tokens = 2 };
}

abbrev willing : {R : Type 0} → Http ℕ ℕ R OpenAi.ApiResponse
willing = record {
  post = λ auth url body w. (ok 200, suc w);
  status = λ h. h;
  json = λ h w. (ok reply, w);
  error_message = λ h w. (none, w);
}

willing-Counts : {R : Type 0} → Counts (willing {R = R}) (λ w. w)
willing-Counts = record {
  posts = λ auth url body w. refl;
  reads = λ h w. refl;
  reads_error = λ h w. refl;
}

abbrev net : Net ℕ ℕ Text
net = record { anthropic = busy; openai = willing; from_str = ok; null = codes "null" }

abbrev lines : List Text
lines = codes "hello" ∷ [] ∷ codes "[steps: 1, tools: 0, tokens: 3]" ∷ []

successful : run net env host (codes "roos.toml") (codes "hi") 7 4 ≡ some (ok lines, 5)
unfolding run find select_provider Loop.run agent_loop InMemory.load State.start Loop.loop Loop.turn
    Types.new State.step Loop.initial Loop.observe OpenAi.openai_provider OpenAi.complete_compat
    OpenAi.map_response OpenAi.stop_reason Loop.finish_turn codes statistics join show_nat text_eq
    Dict.get Dict.insert Dict.remove InMemory.append Calls.collect Calls.new OpenAi.usage
    OpenAi.to_call exchange on_status Types.add from_file parse interpolate_env_vars
    interpolate_rest completion_config Provider.new
successful = refl

run-Ended_example :
    Ended net env
      (λ w. w)
      (from_file host (codes "roos.toml"))
      (codes "hi")
      7
      4
      (some (ok lines, 5))
run-Ended_example =
    subst (Ended net env (λ w. w) (from_file host (codes "roos.toml")) (codes "hi") 7 4) successful
      (run-Ended net env (λ w. w) busy-Counts willing-Counts host (codes "roos.toml") (codes "hi") 7
        4)

abbrev report : ScheduledTask ℕ
report = new_task 7 (codes "reporter") one_shot (codes "report") (some 100) default

-- Times are numbers, and no task is ever moved.
abbrev backend : Backend (Dict ℕ (ScheduledTask ℕ)) (ScheduledTask ℕ) ℕ ℕ
backend = record {
  sled = table;
  codec = plain;
  from_str = λ e. ok 60;
  upcoming = λ s t. some (t + s);
  at_most = leb;
  add_seconds = λ t n. some t;
}

backend_laws : BackendLaws backend
backend_laws = record { stored = table_laws; encoded = plain_laws }

abbrev parse_id : Text → Option Uuid
parse_id [] = none
parse_id (id ∷ text) = some id

abbrev web : Web Text ℕ
web = record {
  new_v4 = λ g. (g % 2 ^ 128, suc g);
  to_string = λ id. id ∷ [];
  parse = parse_id;
  json = λ r. ok (record { agent = codes "writer"; input = codes "{}" });
}

abbrev crypto : Crypto Text
crypto = record {
  new_from_slice = some;
  update = λ mac body. mac ++ body;
  verify_slice = text_eq;
  hex_decode = some;
}

abbrev trigger : Request
trigger = record {
  authorization = none;
  hub_signature = none;
  roos_signature = none;
  body = some (codes "{}");
}

abbrev service : Service (Dict ℕ (ScheduledTask ℕ)) Text ℕ
service = started 4 cfg ((7, report) ∷ [])

due-reported_example :
    (shown : List (Shown Text)) × (log : List (Uuid × Text)) × (rest : List (Shown Text)) × (length
        shown
      ≡ 2)
    × (serving backend web crypto
          (request to_trigger trigger ∷ second_passed 150 ∷ second_passed 200 ∷ sighup ∷ [])
          service
        ≡ shown ++ tasks_due log ∷ rest)
    × Memᴰ (7, codes "reporter") log
unfolding load list_tasks stays_up Dict.get
due-reported_example =
    due-reported backend web crypto backend_laws 200 100 service 7 report (report ∷ [])
      (request to_trigger trigger ∷ second_passed 150 ∷ []) (sighup ∷ []) refl refl refl refl refl
      refl

triggered :
    (next : Service (Dict ℕ (ScheduledTask ℕ)) Text ℕ) × Reached backend web crypto service next
unfolding step
triggered = (_, after (request to_trigger trigger) here refl)

served-waits_example :
    (triggered.0.scheduler ≡ (7, report) ∷ [])
    × AllWait triggered.0.state
    × KeepsIds triggered.0.state triggered.0.state
served-waits_example = served-waits backend web crypto 4 cfg ((7, report) ∷ []) triggered.1 here

-- A second request follows the one that was accepted.
triggered_again :
    (next : Service (Dict ℕ (ScheduledTask ℕ)) Text ℕ) × Reached backend web crypto triggered.0 next
unfolding step
triggered_again = (_, after (request to_trigger trigger) here refl)

accepted-found_example :
    (id : Uuid) × (body : TriggerRequest Text) × (web.json trigger ≡ ok body)
    × (4 ∷ [] ≡ web.to_string id)
    × (runs_handler web (4 ∷ []) triggered_again.0.state
        ≡ (ok (found (pending web id body)), triggered_again.0.state))
unfolding step on_trigger register_agent triggered triggered_again Dict.get Dict.insert Dict.remove
accepted-found_example =
    accepted-found backend web crypto (λ id bits. refl) (λ g. omega arith) service trigger (4 ∷ [])
      refl triggered_again.1 (tt, refl)
