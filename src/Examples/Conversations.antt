-- ===== src/Examples/Conversations.antt =====
-- A run that calls a tool once. The world holds the requests to the model and the commands.
use roos.Base.{
  ℕ, zero, suc, ◌≡◌, refl, arith, Text, codes, length, some, none, List, [], ◌∷◌, ◌++◌, ok,
}
use roos.Base.Action.{Action, pure}
use roos.Core.Memory.{Memory}
use roos.Core.Provider
use roos.Core.Provider.{
  LlmProvider, CompletionResponse, StopReason, tool_use, end_turn, ToolCall, Message,
}
use roos.Core.Tool.{Tool}
use roos.Core.Types.{AgentInput}
use roos.Orchestrator.Calls
use roos.Orchestrator.Calls.{Platform, ReasoningLoop}
use roos.Orchestrator.Loop.{run}
use roos.Orchestrator.Loop.Keeps.{new-KeptByTools}
use roos.Orchestrator.Loop.Rule.{Returns}
use roos.Orchestrator.Loop.Sends.{first_request, run-Said}
use roos.Orchestrator.Loop.Transcript.{Logs, Said}
use roos.Tools.Shell.{shell_tool, with_allowlist, tool_name}
use roos.Tools.Shell.Guarded.{Quiet, Grown, run-Grown}

record World : Type 0 where
  sent : List (List Message)
  commands : List Text

abbrev start : World
start = record { sent = []; commands = [] }

abbrev env : Platform World Text ℕ Text
env = record {
  utc_now = λ w. 0;
  elapsed_ms = λ v w. 0;
  schemas = record { compile = ok; validate = λ c j. ok tt };
  show_uuid = λ id. codes "run";
}

abbrev reason : ℕ → StopReason
reason zero = tool_use
reason (suc n) = end_turn

abbrev reply : Text → World → CompletionResponse Text
reply tool w = record {
  content = some (codes "done");
  tool_calls = record { id = codes "1"; name = tool; input = codes "ls -l" } ∷ [];
  usage = record { input = 1; output = 2; total = 3 };
  model = codes "m";
  stop_reason = reason (length w.sent);
}

abbrev provider : Text → LlmProvider World Text
provider tool = record {
  complete = λ messages config w. (ok (reply tool w), record w { sent = w.sent ++ messages ∷ [] });
}

abbrev memory : Memory World
memory = record {
  store = λ h. pure tt;
  load = λ id. pure none;
  append = λ id m. pure tt;
  clear = λ id. pure tt;
}

abbrev echo : Tool World Text
echo = record { name = codes "echo"; description = codes ""; schema = codes ""; execute = pure }

abbrev input : AgentInput Text
input = record { content = codes "hi"; context = []; run_id = 5; max_steps = some 3 }

abbrev lp : ReasoningLoop World Text
lp = Calls.new (provider (codes "echo")) (echo ∷ []) memory

logs : Logs env lp (λ w. w.sent)
unfolding Calls.new
logs = record {
  completes = λ messages config w. refl;
  loads = λ id w. refl;
  appends = λ id m w. refl;
  tools_keep = λ sent.
      new-KeptByTools env (λ w. w.sent ≡ sent) (provider (codes "echo")) (echo ∷ []) memory
        ((λ given w h. h), tt);
}

run-Said_example :
    Returns
      (Said env lp (Provider.new (codes "m")) (first_request input none) (λ w. w.sent) [])
      (run env lp input (Provider.new (codes "m")) start)
unfolding Calls.new
run-Said_example =
    run-Said env lp (λ w. w.sent) logs input (Provider.new (codes "m")) none start start
      (omega arith) refl

abbrev sh : Text → Action World Text (Text × Text)
sh c w = (ok (c, []), record w { commands = w.commands ++ c ∷ [] })

quiet : Quiet (λ w. w.commands) (provider tool_name) memory
quiet = record {
  completes = λ messages config w. refl;
  loads = λ id w. refl;
  appends = λ id m w. refl;
}

run-Grown_example :
    Returns
      (λ r. Grown (λ w. w.commands) (codes "ls" ∷ []) [])
      (run env
        (Calls.new
          (provider tool_name)
          (shell_tool sh (codes "") ok (with_allowlist (codes "ls" ∷ [])) ∷ echo ∷ [])
          memory)
        input
        (Provider.new (codes "m"))
        start)
run-Grown_example =
    run-Grown (λ w. w.commands) sh (λ c w. refl) (codes "ls") [] [] env (provider tool_name) memory
      (echo ∷ []) (codes "") ok input (Provider.new (codes "m")) start quiet ((λ given w. refl), tt)
      (omega arith) refl
