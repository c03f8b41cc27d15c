-- ===== src/Core/Tool.antt =====
-- crates/roos-core/src/tool.rs: the errors of tools and the `Tool` trait.
use roos.Base.{ℕ, Text, codes, show_nat, Option, none, some, ◌++◌}
use roos.Base.Action.{Action}
use roos.Core.Provider.{em_dash}

pub data ToolError : Type 0 where
  invalid_input : Text → Text → ToolError
  execution_failed : Text → Text → ToolError
  not_allowed : Text → ToolError
  timeout : Text → ℕ → ToolError

unfoldable pub display : ToolError → Text
unfolding codes show_nat
display (invalid_input tool reason) =
    codes "tool '" ++ (tool ++ (codes "': invalid input " ++ (em_dash ++ (codes " " ++ reason))))
display (execution_failed tool source) =
    codes "tool '" ++ (tool ++ (codes "' execution failed: " ++ source))
display (not_allowed tool) =
    codes "tool '" ++ (tool ++ codes "' is not allowed by the security policy")
display (timeout tool elapsed_ms) =
    codes "tool '" ++ (tool ++ (codes "' timed out after " ++ (show_nat elapsed_ms ++ codes "ms")))

-- `Error::source`.
unfoldable pub source : ToolError → Option Text
source (execution_failed tool cause) = some cause
source (invalid_input tool reason) = none
source (not_allowed tool) = none
source (timeout tool elapsed_ms) = none

pub record Tool (W J : Type 0) : Type 0 where
  pub name : Text
  pub description : Text
  pub schema : J
  pub execute : J → Action W ToolError Text
