-- ===== src/Examples/Loops.antt =====
-- A run of the reasoning loop that calls one tool and then ends its turn. The world counts the
-- completions.
use roos.Base.{
  ℕ, zero, suc, ◌≡◌, refl, ap, subst, arith, Text, text_Eq, text_eq, codes, Bool-cases, inl, inr,
  none, some, [], ◌∷◌, ok, ok-injective,
}
use roos.Base.Action.{pure}
use roos.Base.Dict
use roos.Core.Types.{AgentInput, IsBalanced, no_usage-IsBalanced, add-IsBalanced}
use roos.Core.Provider.{
  LlmProvider, CompletionConfig, CompletionResponse, StopReason, tool_use, end_turn, ToolCall,
  Message, user,
}
use roos.Core.Provider
use roos.Core.Tool.{Tool}
use roos.Orchestrator.Calls.{Platform, ReasoningLoop, execute_tool}
use roos.Orchestrator.Calls.Outcomes.{CallOutcome, KeptByTools, execute_tool-outcome}
use roos.Orchestrator.Loop.{run}
use roos.Orchestrator.Loop.Rule.{Returns}
use roos.Orchestrator.Loop.Contract.{Contract, IsGood}
use roos.Orchestrator.Loop.Correct.{run-IsGood}

abbrev env : Platform ℕ Text ℕ Text
env = record {
  utc_now = λ w. w;
  elapsed_ms = λ v w. 0;
  schemas = record { compile = ok; validate = λ c j. ok tt };
  show_uuid = λ id. codes "run";
}

abbrev call : ToolCall Text
call = record { id = codes "1"; name = codes "echo"; input = codes "hello" }

abbrev reason : ℕ → StopReason
reason zero = tool_use
reason (suc n) = end_turn

abbrev reply : ℕ → CompletionResponse Text
reply w = record {
  content = some (codes "done");
  tool_calls = call ∷ [];
  usage = record { input = 1; output = 2; total = 3 };
  model = codes "m";
  stop_reason = reason w;
}

abbrev echo : Tool ℕ Text
echo = record { name = codes "echo"; description = codes ""; schema = codes ""; execute = pure }

abbrev lp : ReasoningLoop ℕ Text
lp = record {
  provider = record { complete = λ messages config w. (ok (reply w), suc w) };
  tools = (codes "echo", echo) ∷ [];
  memory = record {
    store = λ h. pure tt;
    load = λ id. pure none;
    append = λ id m. pure tt;
    clear = λ id. pure tt;
  };
}

tools_keep : (n : ℕ) → KeptByTools env lp (λ w. w ≡ n)
unfolding Dict.get
tools_keep n c tool w permitted p = elim (Bool-cases (text_eq (codes "echo") c.name)) [
  | inl same ↦
      let is_echo : echo ≡ tool = ground (arith, same, permitted.0) in
      subst (λ t. (t.execute c.input w).1 ≡ n) is_echo p
  | inr other ↦ absurd (ground (arith, other, permitted.0))
]

contract : Contract env lp (λ n w. w ≡ n) IsBalanced
contract = record {
  completes = λ n messages config w p. ap suc p;
  uses = λ messages config w response u h balanced.
      add-IsBalanced u response.usage balanced
        (subst (λ r. IsBalanced r.usage) (ok-injective h) (omega arith));
  unused = no_usage-IsBalanced;
  tools_keep = tools_keep;
  loads = λ n id w p. p;
  appends = λ n id m w p. p;
}

abbrev input : AgentInput Text
input = record { content = codes "hi"; context = []; run_id = 5; max_steps = some 3 }

run-IsGood_example :
    Returns (IsGood (λ n w. w ≡ n) IsBalanced 3 5) (run env lp input (Provider.new (codes "m")) 0)
run-IsGood_example =
    run-IsGood env lp (λ n w. w ≡ n) IsBalanced contract input (Provider.new (codes "m")) 0
      (omega arith) refl

execute_tool-outcome_example :
    CallOutcome env lp call 4
      (execute_tool env lp call 1 4).0.output
      (execute_tool env lp call 1 4).0.error
      (execute_tool env lp call 1 4).1
execute_tool-outcome_example = (execute_tool-outcome env lp call 1 4).0
