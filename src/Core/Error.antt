-- ===== src/Core/Error.antt =====
-- crates/roos-core/src/error.rs: `AgentError` and its `Display`. A `Box<dyn Error>` is the text
-- that it displays.
use roos.Base.{ℕ, Text, codes, show_nat, Option, none, some, ◌++◌}

pub data AgentError : Type 0 where
  provider_error : Text → AgentError
  tool_error : Text → Text → AgentError
  max_steps_exceeded : ℕ → AgentError
  context_window_exceeded : AgentError
  memory_error : Text → AgentError
  configuration_error : Text → AgentError

unfoldable pub display : AgentError → Text
unfolding codes show_nat
display (provider_error msg) = codes "provider error: " ++ msg
display (tool_error name source) = codes "tool '" ++ (name ++ (codes "' failed: " ++ source))
display (max_steps_exceeded n) = codes "agent exceeded maximum steps (" ++ (show_nat n ++ codes ")")
display context_window_exceeded = codes "context window exceeded"
display (memory_error msg) = codes "memory error: " ++ msg
display (configuration_error msg) = codes "configuration error: " ++ msg

-- `Error::source`.
unfoldable pub source : AgentError → Option Text
source (tool_error name cause) = some cause
source (provider_error msg) = none
source (max_steps_exceeded n) = none
source context_window_exceeded = none
source (memory_error msg) = none
source (configuration_error msg) = none
