-- ===== src/Orchestrator/Loop.antt =====
-- crates/roos-orchestrator/src/loop_.rs: the Reasoning, Action, Observation loop. A turn is one
-- round of `loop { … }`; `run` makes at most `max_steps + 1` of them.
pub mod Contract
pub mod Rule
pub mod Correct
pub mod Persists
pub mod Ends
pub mod Keeps
pub mod Transcript
pub mod Sends
pub mod Recalls
use roos.Base.{
  ℕ, zero, suc, Text, codes, ltb, if◌then◌else◌, Option, none, some, List, [], ◌∷◌, ◌++◌, map,
  Result, ok, err, ◌>>=◌,
}
use roos.Core.Types.{Uuid, TokenUsage, no_usage, add, ToolCallRecord, AgentInput, AgentOutput}
use roos.Core.Error.{
  AgentError, provider_error, max_steps_exceeded, context_window_exceeded, memory_error,
  configuration_error,
}
use roos.Core.Memory
use roos.Core.Memory.{Memory, ConversationHistory, MemoryError}
use roos.Core.Provider
use roos.Core.Provider.{
  Message, StopReason, end_turn, tool_use, max_tokens, stop_sequence, CompletionConfig,
  CompletionResponse, ProviderError, LlmProvider,
}
use roos.Orchestrator.State
use roos.Orchestrator.State.{AgentState, idle, TransitionError}
use roos.Orchestrator.Calls.{Platform, ReasoningLoop, execute_calls}

pub record LoopState (J T : Type 0) : Type 0 where
  pub state : AgentState
  pub messages : List Message
  pub total_tokens : TokenUsage
  pub tools_called : List (ToolCallRecord J T)

-- How a turn ends: `return`, or the next round.
pub data Turn (J T : Type 0) : Type 0 where
  returned : Result AgentError (AgentOutput J T) → Turn J T
  again : LoopState J T → Turn J T

abbrev pub unwrap_or_default : Option Text → Text
unwrap_or_default none = []
unwrap_or_default (some t) = t

abbrev pub transition_failed {ℓ} : {A : Type ℓ} → TransitionError → Result AgentError A
transition_failed e = err (configuration_error (State.display_error e))

-- `input.max_steps.unwrap_or(10)`
abbrev pub max_steps_or : Option ℕ → ℕ
max_steps_or none = 10
max_steps_or (some n) = n

abbrev pub history_messages : Option ConversationHistory → List Message
history_messages none = []
history_messages (some h) = map (λ m. record { role = m.role; content = m.content }) h.messages

module _ {W J T C : Type 0} (env : Platform W J T C) (lp : ReasoningLoop W J) where
  abbrev pub appended : AgentOutput J T → Result MemoryError (Unit {0}) × W → Turn J T × W
  appended output (ok _, w) = (returned (ok output), w)
  appended output (err e, w) = (returned (err (memory_error (Memory.display env.show_uuid e))), w)

  -- `EndTurn` and `StopSequence`.
  unfoldable pub finish_turn : Uuid → CompletionResponse J → LoopState J T → W → Turn J T × W
  finish_turn run_id response st w =
      let content = unwrap_or_default response.content in
      appended
        (record {
          content = content;
          steps_taken = State.step st.state;
          tools_called = st.tools_called;
          total_tokens = st.total_tokens;
          run_id = run_id;
        })
        (lp.memory.append run_id (Memory.assistant content) w)

  abbrev pub resumed : LoopState J T → Result TransitionError AgentState → Turn J T
  resumed st (ok s) = again (record st { state = s })
  resumed st (err e) = returned (transition_failed e)

  abbrev pub act :
      Result TransitionError AgentState → CompletionResponse J → LoopState J T → W → Turn J T × W
  act (err e) response st w = (returned (transition_failed e), w)
  act (ok calling) response st w =
      let (messages, tools_called, w') =
        execute_calls env lp response.tool_calls (State.step st.state) st.messages st.tools_called
          w in
      (
        resumed (record st { messages = messages; tools_called = tools_called })
            (State.tool_done calling >>= State.continue_reasoning),
        w',
      )

  -- The `match response.stop_reason`.
  abbrev pub on_stop : StopReason → Uuid → CompletionResponse J → LoopState J T → W → Turn J T × W
  on_stop end_turn run_id response st w = finish_turn run_id response st w
  on_stop stop_sequence run_id response st w = finish_turn run_id response st w
  on_stop tool_use run_id response st w =
      act (State.call_tool st.state (codes "batch")) response st w
  on_stop max_tokens run_id response st w = (returned (err context_window_exceeded), w)

  abbrev pub with_text : List Message → Option Text → List Message
  with_text messages none = messages
  with_text messages (some text) = messages ++ Provider.assistant text ∷ []

  -- What follows a completion: its tokens and its text are recorded, then the stop reason decides.
  unfoldable pub observe :
      Uuid → LoopState J T → Result ProviderError (CompletionResponse J) × W → Turn J T × W
  observe run_id st (err e, w) = (returned (err (provider_error (Provider.display e))), w)
  observe run_id st (ok response, w) =
      on_stop response.stop_reason run_id response
        (record st {
          total_tokens = add st.total_tokens response.usage;
          messages = with_text st.messages response.content;
        })
        w

  module _ (config : CompletionConfig J) (limit : ℕ) (run_id : Uuid) where
    unfoldable pub turn : LoopState J T → W → Turn J T × W
    turn st w =
        if ltb limit (State.step st.state)
        then (returned (err (max_steps_exceeded limit)), w)
        else observe run_id st (lp.provider.complete st.messages config w)

    -- `loop { … }` for at most `fuel` turns; `none` is a loop that still runs.
    unfoldable pub loop : ℕ → LoopState J T → W → Option (Result AgentError (AgentOutput J T) × W)
    loop zero st w = none
    loop (suc fuel) st w =
        let (t, w') = turn st w in
        elim t [ returned r ↦ some (r, w') | again st' ↦ loop fuel st' w' ]

  -- The state in which the loop begins, once the history is loaded.
  unfoldable pub initial : AgentInput J → Option ConversationHistory → AgentState → LoopState J T
  initial input history state = record {
    state = state;
    messages = history_messages history ++ Provider.user input.content ∷ [];
    total_tokens = no_usage;
    tools_called = [];
  }

  abbrev pub started :
      AgentInput J
      → CompletionConfig J
      → Option ConversationHistory
      → Result TransitionError AgentState
      → W
      → Option (Result AgentError (AgentOutput J T) × W)
  started input config history (err e) w = some (transition_failed e, w)
  started input config history (ok state) w =
      let limit = max_steps_or input.max_steps in
      loop config limit input.run_id (suc limit) (initial input history state) w

  abbrev pub loaded :
      AgentInput J
      → CompletionConfig J
      → Result MemoryError (Option ConversationHistory) × W
      → Option (Result AgentError (AgentOutput J T) × W)
  loaded input config (err e, w) = some (err (memory_error (Memory.display env.show_uuid e)), w)
  loaded input config (ok history, w) = started input config history (State.start idle) w

  unfoldable pub run :
      AgentInput J → CompletionConfig J → W → Option (Result AgentError (AgentOutput J T) × W)
  run input config w = loaded input config (lp.memory.load input.run_id w)
