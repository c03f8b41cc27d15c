-- ===== src/Orchestrator/Calls.antt =====
-- crates/roos-orchestrator/src/loop_.rs: the registry of tools and the execution of tool calls.
pub mod Outcomes
use roos.Base.{ℕ, Text, text_Eq, codes, Option, none, some, List, [], ◌∷◌, ◌++◌, Result, ok, err}
use roos.Base.Dict
use roos.Base.Dict.{Dict}
use roos.Core.Types.{Uuid, usize, ToolCallRecord}
use roos.Core.Memory.{Memory}
use roos.Core.Provider.{Message, ToolCall, LlmProvider}
use roos.Core.Tool
use roos.Core.Tool.{Tool, ToolError}
use roos.Orchestrator.Validate
use roos.Orchestrator.Validate.{JsonSchema, ValidationError, validate_tool_input}

-- What the loop takes from other crates: the clocks, the JSON Schema validator and the text of a
-- `Uuid`. `elapsed_ms v w` is how long it is from the world `v` to `w`.
pub record Platform (W J T C : Type 0) : Type 0 where
  pub utc_now : W → T
  pub elapsed_ms : W → W → ℕ
  pub schemas : JsonSchema J C
  pub show_uuid : Uuid → Text

pub record ReasoningLoop (W J : Type 0) : Type 0 where
  pub provider : LlmProvider W J
  pub tools : Dict Text (Tool W J)
  pub memory : Memory W

-- Collecting into a `HashMap`: of two tools with one name, the later stays.
unfoldable pub collect :
    {W J : Type 0} → Dict Text (Tool W J) → List (Tool W J) → Dict Text (Tool W J)
collect registry [] = registry
collect registry (t ∷ ts) = collect (Dict.insert registry t.name t) ts

unfoldable pub new :
    {W J : Type 0} → LlmProvider W J → List (Tool W J) → Memory W → ReasoningLoop W J
unfolding collect
new provider tools memory = record {
  provider = provider;
  tools = collect Dict.empty tools;
  memory = memory;
}

module _ {W J T C : Type 0} (env : Platform W J T C) where
  -- `Ok(out) => (Some(out), None)`, `Err(e) => (None, Some(e.to_string()))`
  abbrev pub outcome : Result ToolError Text × W → Option Text × Option Text × W
  outcome (ok out, w) = (some out, none, w)
  outcome (err e, w) = (none, some (Tool.display e), w)

  abbrev pub guarded :
      Tool W J → J → Result ValidationError (Unit {0}) → W → Option Text × Option Text × W
  guarded tool input (err e) w = (none, some (Validate.display e), w)
  guarded tool input (ok _) w = outcome (tool.execute input w)

  abbrev pub dispatch_call : Option (Tool W J) → ToolCall J → W → Option Text × Option Text × W
  dispatch_call none call w = (none, some (codes "no tool named '" ++ (call.name ++ codes "'")), w)
  dispatch_call (some tool) call w =
      guarded tool call.input (validate_tool_input env.schemas call.name tool.schema call.input) w

  module _ (lp : ReasoningLoop W J) where
    unfoldable pub execute_tool : ToolCall J → ℕ → W → ToolCallRecord J T × W
    execute_tool call step w =
        let (output, error, w') = dispatch_call (Dict.get lp.tools call.name) call w in
        (
          record {
            tool_name = call.name;
            input = call.input;
            output = output;
            error = error;
            duration_ms = usize (env.elapsed_ms w w');
            step = step;
            timestamp = env.utc_now w;
          },
          w',
        )

    abbrev pub observation : Option Text → Option Text → Text
    observation (some out) error = out
    observation none (some e) = codes "error: " ++ e
    observation none none = codes "error: " ++ codes "unknown"

    -- The `for` loop over the tool calls of one response.
    unfoldable pub execute_calls :
        List (ToolCall J)
        → ℕ
        → List Message
        → List (ToolCallRecord J T)
        → W
        → List Message × List (ToolCallRecord J T) × W
    execute_calls [] step messages tools_called w = (messages, tools_called, w)
    execute_calls (call ∷ calls) step messages tools_called w =
        let (r, w') = execute_tool call step w in
        execute_calls calls step
          (messages ++ record { role = codes "tool"; content = observation r.output r.error } ∷ [])
          (tools_called ++ r ∷ []) w'
