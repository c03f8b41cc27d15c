-- ===== src/Orchestrator/Loop/Persists.antt =====
-- What a run of crates/roos-orchestrator/src/loop_.rs leaves in the memory.
use roos.Base.{
  ℕ, suc, ◌+◌, ◌<◌, ◌^◌, ◌≡◌, refl, ◌∙◌, ◌>>=◌, codes, ltb, Bool-cases, inl, inr, Option, List,
  Result, ok, err,
}
use roos.Core.Types.{Uuid, AgentInput, AgentOutput}
use roos.Core.Error.{AgentError, memory_error}
use roos.Core.Memory
use roos.Core.Memory.{MemoryError, ConversationHistory, ConversationMessage}
use roos.Core.Provider.{
  Message, StopReason, end_turn, tool_use, max_tokens, stop_sequence, CompletionConfig,
  CompletionResponse, ProviderError,
}
use roos.MemoryStore.Spec
use roos.MemoryStore.Spec.{Histories, Implements}
use roos.Orchestrator.State
use roos.Orchestrator.State.{AgentState, TransitionError, idle}
use roos.Orchestrator.Calls.{Platform, ReasoningLoop, execute_calls}
use roos.Orchestrator.Calls.Outcomes.{KeptByTools, execute_calls-keeps}
use roos.Orchestrator.Loop.{
  LoopState, appended, finish_turn, resumed, act, on_stop, observe, turn, max_steps_or, started,
  loaded, run,
}
use roos.Orchestrator.Loop.Ends.{run-returns}
use roos.Orchestrator.Loop.Rule.{Returns, ReturnsIf, Post, loop_rule_if}

module _ {W : Type 0} (Good : W → Type 0) (view : W → Histories) where
  -- A good world with the histories `m`.
  abbrev pub Holds : Histories → W → Type 0
  Holds m w = Good w × ((k : Uuid) → view w k ≡ m k)

  -- An output leaves the histories with its content appended as the assistant's message, and an
  -- error leaves them as they were, but for a memory error, which says nothing of what it left.
  abbrev pub Persisted :
      {J T : Type 0} → Histories → Uuid → Result AgentError (AgentOutput J T) → W → Type 0
  Persisted m run_id (ok out) w = Holds (Spec.appended m run_id (Memory.assistant out.content)) w
  Persisted m run_id (err (memory_error msg)) w = Unit
  Persisted m run_id (err _) w = Holds m w

appended-ext :
    (v m : Histories) (id : Uuid) (message : ConversationMessage) (k : Uuid)
    → ((k : Uuid) → v k ≡ m k)
    → Spec.appended v id message k ≡ Spec.appended m id message k
appended-ext v m id message k h = rw (h id, h k) refl

-- The memory of the loop implements the abstract memory, and the provider and the permitted tools
-- leave the histories alone.
pub record Backed {W J T C : Type 0} (env : Platform W J T C) (lp : ReasoningLoop W J)
    (Good : W → Type 0) (view : W → Histories) : Type 0 where
  pub memory : Implements lp.memory Good view
  pub completes :
      (m : Histories) (messages : List Message) (config : CompletionConfig J) (w : W)
      → Holds Good view m w
      → Holds Good view m (lp.provider.complete messages config w).1
  pub tools_keep : (m : Histories) → KeptByTools env lp (Holds Good view m)

module _ {W J T C : Type 0} (env : Platform W J T C) (lp : ReasoningLoop W J) (Good : W → Type 0)
    (view : W → Histories) (back : Backed env lp Good view) (config : CompletionConfig J)
    (limit : ℕ) (run_id : Uuid) (m : Histories) where
  abbrev Inv : LoopState J T → W → Type 0
  Inv st w = Holds Good view m w

  abbrev Goal : Result AgentError (AgentOutput J T) → W → Type 0
  Goal = Persisted Good view m run_id

  appended-Goal :
      (out : AgentOutput J T) (w : W) (x : Result MemoryError (Unit {0}) × W)
      → lp.memory.append run_id (Memory.assistant out.content) w ≡ x
      → Holds Good view m w
      → Post Inv Goal (appended env lp out x)
  appended-Goal out w (ok tt, w') e h =
      let stored = back.memory.append_ok run_id (Memory.assistant out.content) w w' h.0 e in
      (
        stored.0,
        λ k. stored.1 k ∙ appended-ext (view w) m run_id (Memory.assistant out.content) k h.1,
      )
  appended-Goal out w (err e', w') e h = tt

  resumed-Goal :
      (st : LoopState J T) (r : Result TransitionError AgentState) (w : W)
      → Holds Good view m w
      → Post Inv Goal (resumed env lp st r, w)
  resumed-Goal st (ok s) w h = h
  resumed-Goal st (err e) w h = h

  act-Goal :
      (r : Result TransitionError AgentState) (response : CompletionResponse J) (st : LoopState J T)
      (w : W)
      → Holds Good view m w
      → Post Inv Goal (act env lp r response st w)
  act-Goal (err e) response st w h = h
  act-Goal (ok calling) response st w h =
      let (messages, records, w') =
        execute_calls env lp response.tool_calls (State.step st.state) st.messages st.tools_called
          w in
      resumed-Goal (record st { messages = messages; tools_called = records })
        (State.tool_done calling >>= State.continue_reasoning) w'
        (execute_calls-keeps env lp (Holds Good view m) (back.tools_keep m) response.tool_calls
          (State.step st.state) st.messages st.tools_called w h)

  on_stop-Goal :
      (reason : StopReason) (response : CompletionResponse J) (st : LoopState J T) (w : W)
      → Holds Good view m w
      → Post Inv Goal (on_stop env lp reason run_id response st w)
  unfolding finish_turn
  on_stop-Goal end_turn response st w h = appended-Goal _ w (lp.memory.append run_id _ w) refl h
  on_stop-Goal stop_sequence response st w h =
      appended-Goal _ w (lp.memory.append run_id _ w) refl h
  on_stop-Goal tool_use response st w h =
      act-Goal (State.call_tool st.state (codes "batch")) response st w h
  on_stop-Goal max_tokens response st w h = h

  observe-Goal :
      (st : LoopState J T) (x : Result ProviderError (CompletionResponse J) × W)
      → Holds Good view m x.1
      → Post Inv Goal (observe env lp run_id st x)
  unfolding observe
  observe-Goal st (err e, w) h = h
  observe-Goal st (ok response, w) h = on_stop-Goal response.stop_reason response _ w h

  turn-Goal :
      (st : LoopState J T) (w : W)
      → Holds Good view m w
      → Post Inv Goal (turn env lp config limit run_id st w)
  unfolding turn
  turn-Goal st w h = elim (Bool-cases (ltb limit (State.step st.state))) [
    | inl over ↦ rw over h
    | inr within ↦ rw within (
        observe-Goal st (lp.provider.complete st.messages config w)
          (back.completes m st.messages config w h))
  ]

module _ {W J T C : Type 0} (env : Platform W J T C) (lp : ReasoningLoop W J) (Good : W → Type 0)
    (view : W → Histories) (back : Backed env lp Good view) (input : AgentInput J)
    (config : CompletionConfig J) where
  started-Persisted :
      (o : Option ConversationHistory) (r : Result TransitionError AgentState) (m : Histories)
      (w : W)
      → Holds Good view m w
      → ReturnsIf (Persisted Good view m input.run_id) (started env lp input config o r w)
  started-Persisted o (err e) m w h = h
  started-Persisted o (ok state) m w h =
      loop_rule_if env lp config (max_steps_or input.max_steps) input.run_id
        (λ st v. Holds Good view m v) (Persisted Good view m input.run_id)
        (turn-Goal env lp Good view back config (max_steps_or input.max_steps) input.run_id m)
        (suc (max_steps_or input.max_steps)) _ w h

  loaded-Persisted :
      (w : W) (x : Result MemoryError (Option ConversationHistory) × W)
      → lp.memory.load input.run_id w ≡ x
      → Good w
      → ReturnsIf (Persisted Good view (view w) input.run_id) (loaded env lp input config x)
  loaded-Persisted w (err e, w') h g = tt
  loaded-Persisted w (ok o, w') h g =
      let kept = back.memory.load_ok input.run_id w w' o g h in
      started-Persisted o (State.start idle) (view w) w' (kept.1, kept.2)

  -- A run over a memory that implements the abstract memory ends, if `max_steps + 1` is below 2^64
  -- and the provider and the permitted tools leave the histories alone.
  -- An output leaves the histories with one message more, the assistant's with the output's content,
  -- in the history of the run, which is begun if there was none. Every error but a memory error
  -- leaves the histories as they were.
  pub run-Persisted :
      (w : W)
      → max_steps_or input.max_steps + 1 < 2 ^ 64
      → Good w
      → Returns (Persisted Good view (view w) input.run_id) (run env lp input config w)
  unfolding run
  run-Persisted w fits g =
      run-returns env lp _ input config w fits
        (loaded-Persisted w (lp.memory.load input.run_id w) refl g)
