-- ===== src/Examples/Machine.antt =====
-- Short runs of the state machine.
use roos.Base.{◌≡◌, refl, arith, codes, List, [], ◌∷◌}
use roos.Orchestrator.State.{reasoning, step, is_terminal}
use roos.Orchestrator.State.Traces.{
  Event, start_event, call_tool_event, tool_done_event, continue_event, fire, fire_all,
  step-eq-cycles,
}

abbrev two_rounds : List Event
two_rounds = start_event ∷ call_tool_event (codes "fs") ∷ tool_done_event ∷ continue_event ∷ []

step-eq-cycles_example : step (reasoning 2) ≡ 2
unfolding fire_all fire is_terminal
step-eq-cycles_example = step-eq-cycles (reasoning 2) two_rounds refl refl (omega arith)
