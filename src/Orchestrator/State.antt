-- ===== src/Orchestrator/State.antt =====
-- crates/roos-orchestrator/src/state.rs: the phases of an agent run and the events between them.
pub mod Traces
use roos.Base.{ℕ, ◌+◌, Text, codes, show_nat, Bool, true, false, Result, ok, err, ◌++◌}
use roos.Core.Types.{usize}

pub data AgentState : Type 0 where
  idle : AgentState
  reasoning : ℕ → AgentState
  calling_tool : Text → ℕ → AgentState
  observing : ℕ → AgentState
  finished : AgentState
  failed : AgentState

unfoldable pub is_terminal : AgentState → Bool
is_terminal finished = true
is_terminal failed = true
is_terminal _ = false

unfoldable pub step : AgentState → ℕ
step (reasoning n) = n
step (calling_tool tool_name n) = n
step (observing n) = n
step _ = 0

-- `Display` of a state.
unfoldable pub display : AgentState → Text
unfolding codes show_nat
display idle = codes "Idle"
display (reasoning n) = codes "Reasoning(step=" ++ (show_nat n ++ codes ")")
display (calling_tool tool_name n) =
    codes "CallingTool(tool=" ++ (tool_name ++ (codes ", step=" ++ (show_nat n ++ codes ")")))
display (observing n) = codes "Observing(step=" ++ (show_nat n ++ codes ")")
display finished = codes "Finished"
display failed = codes "Failed"

pub record TransitionError : Type 0 where
  pub event : Text
  pub from : Text

unfoldable pub invalid : Text → AgentState → TransitionError
invalid event from = record { event = event; from = display from }

-- `Display` of a refused transition.
unfoldable pub display_error : TransitionError → Text
unfolding codes
display_error e =
    codes "invalid transition `" ++ (e.event ++ (codes "` from state `" ++ (e.from ++ codes "`")))

unfoldable pub start : AgentState → Result TransitionError AgentState
start idle = ok (reasoning 1)
start other = err (invalid (codes "start") other)

unfoldable pub call_tool : AgentState → Text → Result TransitionError AgentState
call_tool (reasoning n) tool_name = ok (calling_tool tool_name n)
call_tool other tool_name = err (invalid (codes "call_tool") other)

unfoldable pub tool_done : AgentState → Result TransitionError AgentState
tool_done (calling_tool tool_name n) = ok (observing n)
tool_done other = err (invalid (codes "tool_done") other)

unfoldable pub continue_reasoning : AgentState → Result TransitionError AgentState
continue_reasoning (observing n) = ok (reasoning (usize (n + 1)))
continue_reasoning other = err (invalid (codes "continue_reasoning") other)

unfoldable pub finish : AgentState → Result TransitionError AgentState
finish (reasoning n) = ok finished
finish other = err (invalid (codes "finish") other)

unfoldable pub fail : AgentState → AgentState
fail self = failed
