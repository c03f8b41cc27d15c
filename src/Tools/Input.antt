-- ===== src/Tools/Input.antt =====
-- How the tools of crates/roos-tools/src start: `serde_json::from_value(input)` and its `?`.
use roos.Base.{Text, Result, ok, err}
use roos.Base.Action.{Action, map_throw}
use roos.Core.Tool.{ToolError, invalid_input, execution_failed}

module _ {W A : Type 0} (tool : Text) where
  abbrev pub on_input : Result Text A → (A → Action W ToolError Text) → Action W ToolError Text
  on_input (err e) next w = (err (invalid_input tool e), w)
  on_input (ok inp) next w = next inp w

  -- `.map_err(|e| ToolError::ExecutionFailed { .. })`
  abbrev pub attempt : Action W Text A → Action W ToolError A
  attempt m = map_throw (execution_failed tool) m
