-- ===== src/Orchestrator/Loop/Sends.antt =====
-- That a run of crates/roos-orchestrator/src/loop_.rs sends a conversation to the model.
use roos.Base.{
  ℕ, suc, ◌+◌, ◌<◌, ◌^◌, ◌≡◌, refl, sym, ap, ◌∙◌, ◌>>=◌, codes, ltb, Bool-cases, inl, inr, Option,
  List, [], ◌∷◌, ◌++◌, append-nil, append_assoc, Result, ok, err,
}
use roos.Core.Types.{Uuid, add, AgentInput, AgentOutput}
use roos.Core.Error.{AgentError}
use roos.Core.Memory
use roos.Core.Memory.{MemoryError, ConversationHistory}
use roos.Core.Provider
use roos.Core.Provider.{
  Message, StopReason, end_turn, tool_use, max_tokens, stop_sequence, CompletionConfig,
  CompletionResponse, ProviderError,
}
use roos.Orchestrator.State
use roos.Orchestrator.State.{AgentState, TransitionError, idle}
use roos.Orchestrator.Calls.{Platform, ReasoningLoop, execute_calls}
use roos.Orchestrator.Calls.Outcomes.{execute_calls-keeps}
use roos.Orchestrator.Loop
use roos.Orchestrator.Loop.{
  LoopState, with_text, appended, finish_turn, resumed, act, on_stop, observe, turn, max_steps_or,
  history_messages, initial, started, loaded, run,
}
use roos.Orchestrator.Loop.Ends.{run-returns}
use roos.Orchestrator.Loop.Rule.{Returns, ReturnsIf, Post, loop_rule_if}
use roos.Orchestrator.Loop.Transcript.{
  Conversation, begins, goes_on, Cut, Said, Logs, execute_calls-Answers,
}

-- The first request: the messages of the history that was loaded, and the user's input.
abbrev pub first_request : {J : Type 0} → AgentInput J → Option ConversationHistory → List Message
first_request input history = history_messages history ++ Provider.user input.content ∷ []

module _ {W J T C : Type 0} (env : Platform W J T C) (lp : ReasoningLoop W J)
    (log : W → List (List Message)) (logs : Logs env lp log) (config : CompletionConfig J)
    (limit : ℕ) (run_id : Uuid) (start : List Message) (before : List (List Message)) where
  abbrev Inv : LoopState J T → W → Type 0
  Inv st w =
      (sent : List (List Message)) × Conversation env lp config start sent st.messages
        st.tools_called st.total_tokens
      × (log w ≡ before ++ sent)

  abbrev Goal : Result AgentError (AgentOutput J T) → W → Type 0
  Goal = Said env lp config start log before

  -- The error that ends a turn, before its request or behind it.
  Cut-before : (st : LoopState J T) (w : W) → Inv st w → Cut env lp config start log before w
  Cut-before st w (sent, talk, h) =
      (sent, st.messages, st.tools_called, st.total_tokens, talk, inl h)

  resumed-Goal :
      (st : LoopState J T) (r : Result TransitionError AgentState) (w : W)
      → Inv st w
      → Post Inv Goal (resumed env lp st r, w)
  resumed-Goal st (ok s) w h = h
  resumed-Goal st (err e) w h = Cut-before st w h

  -- The model answered the last request, the messages of `st`.
  module _ (st : LoopState J T) (sent : List (List Message))
      (talk : Conversation env lp config start sent st.messages st.tools_called
        st.total_tokens) where
    abbrev IsSent : W → Type 0
    IsSent w = log w ≡ before ++ (sent ++ st.messages ∷ [])

    Cut-behind : (w : W) → IsSent w → Cut env lp config start log before w
    Cut-behind w h = (sent, st.messages, st.tools_called, st.total_tokens, talk, inr h)

    module _ (v : W) (response : CompletionResponse J)
        (answered : (lp.provider.complete st.messages config v).0 ≡ ok response) where
      -- The state behind the completion.
      abbrev heard : LoopState J T
      heard = record st {
        total_tokens = add st.total_tokens response.usage;
        messages = with_text env lp st.messages response.content;
      }

      appended-Goal :
          (out : AgentOutput J T) (x : Result MemoryError (Unit {0}) × W)
          → IsSent x.1
          → out.tools_called ≡ st.tools_called
          → out.content ≡ Loop.unwrap_or_default response.content
          → out.total_tokens ≡ add st.total_tokens response.usage
          → Post Inv Goal (appended env lp out x)
      appended-Goal out (ok tt, w') h kept said counted = (
        sent,
        st.messages,
        v,
        response,
        st.total_tokens,
        rw kept talk,
        answered,
        said,
        counted,
        h,
      )
      appended-Goal out (err e, w') h kept said counted = Cut-behind w' h

      finish_turn-Goal :
          (w : W) → IsSent w → Post Inv Goal (finish_turn env lp run_id response heard w)
      unfolding finish_turn
      finish_turn-Goal w h =
          let message = Memory.assistant (Loop.unwrap_or_default response.content) in
          appended-Goal _ (lp.memory.append run_id message w) (logs.appends run_id message w ∙ h)
            refl refl refl

      act-Goal :
          (r : Result TransitionError AgentState) (w : W)
          → IsSent w
          → Post Inv Goal (act env lp r response heard w)
      act-Goal (err e) w h = Cut-behind w h
      act-Goal (ok calling) w h =
          let step = State.step st.state in
          let (new, grown, shown, answers) =
            execute_calls-Answers env lp response.tool_calls step heard.messages st.tools_called
              w in
          let (messages, records, w') =
            execute_calls env lp response.tool_calls step heard.messages st.tools_called w in
          resumed-Goal (record heard { messages = messages; tools_called = records })
            (State.tool_done calling >>= State.continue_reasoning) w'
            (
              sent ++ st.messages ∷ [],
              rw (shown, grown) (goes_on v response new talk answered answers),
              execute_calls-keeps env lp IsSent (logs.tools_keep _) response.tool_calls step
                  heard.messages st.tools_called w h,
            )

      on_stop-Goal :
          (reason : StopReason) (w : W)
          → IsSent w
          → Post Inv Goal (on_stop env lp reason run_id response heard w)
      on_stop-Goal end_turn w h = finish_turn-Goal w h
      on_stop-Goal stop_sequence w h = finish_turn-Goal w h
      on_stop-Goal tool_use w h = act-Goal (State.call_tool st.state (codes "batch")) w h
      on_stop-Goal max_tokens w h = Cut-behind w h

    observe-Goal :
        (v : W) (x : Result ProviderError (CompletionResponse J) × W)
        → lp.provider.complete st.messages config v ≡ x
        → IsSent x.1
        → Post Inv Goal (observe env lp run_id st x)
    unfolding observe
    observe-Goal v (err e, w) answered h = Cut-behind w h
    observe-Goal v (ok response, w) answered h =
        on_stop-Goal v response (ap (λ x. x.0) answered) response.stop_reason w h

  turn-Goal :
      (st : LoopState J T) (w : W) → Inv st w → Post Inv Goal (turn env lp config limit run_id st w)
  unfolding turn
  turn-Goal st w (sent, talk, h) = elim (Bool-cases (ltb limit (State.step st.state))) [
    | inl over ↦ rw over (Cut-before st w (sent, talk, h))
    | inr within ↦ rw within (
        observe-Goal st sent talk w (lp.provider.complete st.messages config w) refl (
          logs.completes st.messages config w
          ∙ rw (h, append_assoc before sent (st.messages ∷ [])) refl))
  ]

module _ {W J T C : Type 0} (env : Platform W J T C) (lp : ReasoningLoop W J)
    (log : W → List (List Message)) (logs : Logs env lp log) (input : AgentInput J)
    (config : CompletionConfig J) where
  abbrev Sends :
      List (List Message)
      → Result MemoryError (Option ConversationHistory)
      → Result AgentError (AgentOutput J T)
      → W
      → Type 0
  Sends before (ok history) r w = Said env lp config (first_request input history) log before r w
  Sends before (err e) r w = log w ≡ before

  loaded-Sends :
      (before : List (List Message)) (x : Result MemoryError (Option ConversationHistory) × W)
      → log x.1 ≡ before
      → ReturnsIf (Sends before x.0) (loaded env lp input config x)
  unfolding initial State.start
  loaded-Sends before (err e, w) h = h
  loaded-Sends before (ok history, w) h =
      loop_rule_if env lp config (max_steps_or input.max_steps) input.run_id
        (Inv env lp log logs config (max_steps_or input.max_steps) input.run_id
          (first_request input history) before)
        (Said env lp config (first_request input history) log before)
        (turn-Goal env lp log logs config (max_steps_or input.max_steps) input.run_id
          (first_request input history) before)
        (suc (max_steps_or input.max_steps)) _ w ([], begins, h ∙ sym (append-nil before))

  -- A run whose memory loads a history, or none, ends, if `max_steps + 1` is below 2^64, and what it
  -- sends to the model is one conversation: the first request is the messages of the history
  -- and the user's input, and nothing of the input's context; each next request is the
  -- one before, the text of the model's answer if it has one, and one message of the role `tool` for
  -- each tool call of that answer, in order, with the call's output or its error. The content of an
  -- output is the text of the model's answer to the last request (the empty text if it has none),
  -- its records are those of the tool calls, each with the name and the input of its call, and its
  -- tokens are those of all the answers, added up.
  -- The condition: `log` records what each completion is sent, and nothing else changes it.
  pub run-Said :
      (history : Option ConversationHistory) (w w' : W)
      → max_steps_or input.max_steps + 1 < 2 ^ 64
      → lp.memory.load input.run_id w ≡ (ok history, w')
      → Returns
          (Said env lp config (first_request input history) log (log w))
          (run env lp input config w)
  unfolding run
  run-Said history w w' fits loads =
      let unsent : log w' ≡ log w = ap (λ x. log x.1) (sym loads) ∙ logs.loads input.run_id w in
      run-returns env lp _ input config w fits
        (rw loads (loaded-Sends (log w) (ok history, w') unsent))
