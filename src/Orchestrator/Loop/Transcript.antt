-- ===== src/Orchestrator/Loop/Transcript.antt =====
-- What a run of crates/roos-orchestrator/src/loop_.rs sends to the model.
use roos.Base.{
  ℕ, ◌≡◌, ◌⊎◌, refl, sym, ◌∙◌, codes, List, [], ◌∷◌, ◌++◌, map, append-nil, append_assoc, Result,
  ok, err,
}
use roos.Core.Types.{Uuid, TokenUsage, no_usage, add, ToolCallRecord, AgentOutput}
use roos.Core.Error.{AgentError}
use roos.Core.Memory.{ConversationMessage}
use roos.Core.Provider.{Message, CompletionConfig, CompletionResponse, ToolCall}
use roos.Orchestrator.Calls.{Platform, ReasoningLoop, observation, execute_tool, execute_calls}
use roos.Orchestrator.Calls.Outcomes.{KeptByTools, execute_tool-outcome}
use roos.Orchestrator.Loop.{unwrap_or_default, with_text}

module _ {W J T C : Type 0} (env : Platform W J T C) (lp : ReasoningLoop W J) where
  -- The message that shows the model what a tool call gave.
  abbrev pub tool_message : ToolCallRecord J T → Message
  tool_message r = record { role = codes "tool"; content = observation env lp r.output r.error }

  -- The records answer the calls one by one: each names the tool and the input of its call.
  abbrev pub Answers : List (ToolCall J) → List (ToolCallRecord J T) → Type 0
  Answers calls records =
      (map (λ r. r.tool_name) records ≡ map (λ c. c.name) calls)
      × (map (λ r. r.input) records ≡ map (λ c. c.input) calls)

  pub execute_calls-Answers :
      (calls : List (ToolCall J)) (step : ℕ) (messages : List Message)
      (records : List (ToolCallRecord J T)) (w : W)
      → let (messages', records', w') = execute_calls env lp calls step messages records w in
        (new : List (ToolCallRecord J T)) × (records' ≡ records ++ new)
        × (messages' ≡ messages ++ map tool_message new)
        × Answers calls new
  unfolding execute_calls
  execute_calls-Answers [] step messages records w =
      ([], sym (append-nil records), sym (append-nil messages), (refl, refl))
  execute_calls-Answers (call ∷ calls) step messages records w =
      let (r, w') = execute_tool env lp call step w in
      let (_, named, given, _) = execute_tool-outcome env lp call step w in
      let (new, grown, shown, answers) =
        execute_calls-Answers calls step (messages ++ tool_message r ∷ []) (records ++ r ∷ []) w' in
      (
        r ∷ new,
        grown ∙ append_assoc records (r ∷ []) new,
        shown ∙ append_assoc messages (tool_message r ∷ []) (map tool_message new),
        (rw (named, answers.0) refl, rw (given, answers.1) refl),
      )

  module _ (config : CompletionConfig J) (start : List Message) where
    -- A conversation from the messages `start`: the requests that the model answered with tool calls,
    -- the messages that stand now, the records of the tool calls and the tokens that were used.
    pub data Conversation
        : List (List Message) → List Message → List (ToolCallRecord J T) → TokenUsage → Type 0 where
      begins : Conversation [] start [] no_usage
      goes_on :
          {sent : List (List Message)} {messages : List Message}
          {records : List (ToolCallRecord J T)} (w : W) (response : CompletionResponse J)
          (new : List (ToolCallRecord J T)) {used : TokenUsage}
          → Conversation sent messages records used
          → (lp.provider.complete messages config w).0 ≡ ok response
          → Answers response.tool_calls new
          → Conversation
              (sent ++ messages ∷ [])
              (with_text env lp messages response.content ++ map tool_message new)
              (records ++ new)
              (add used response.usage)

    module _ (log : W → List (List Message)) (before : List (List Message)) where
      -- What was sent is a conversation, with or without its last request.
      abbrev pub Cut : W → Type 0
      Cut w =
          (sent : List (List Message)) × (messages : List Message) × (records : List
            (ToolCallRecord J T))
          × (used : TokenUsage) × Conversation sent messages records used
          × ((log w ≡ before ++ sent) ⊎ (log w ≡ before ++ (sent ++ messages ∷ [])))

      -- The output is the model's answer to the last request of a conversation, and the requests of
      -- the conversation are what was sent. An error cuts a conversation.
      abbrev pub Said : Result AgentError (AgentOutput J T) → W → Type 0
      Said (ok out) w =
          (sent : List (List Message)) × (messages : List Message) × (v : W)
          × (response : CompletionResponse J) × (used : TokenUsage) × Conversation sent messages
              out.tools_called used
          × ((lp.provider.complete messages config v).0 ≡ ok response)
          × (out.content ≡ unwrap_or_default response.content)
          × (out.total_tokens ≡ add used response.usage)
          × (log w ≡ before ++ (sent ++ messages ∷ []))
      Said (err e) w = Cut w

  -- The log records what each completion is sent, and nothing else changes it.
  pub record Logs (log : W → List (List Message)) : Type 0 where
    pub completes :
        (messages : List Message) (config : CompletionConfig J) (w : W)
        → log (lp.provider.complete messages config w).1 ≡ log w ++ messages ∷ []
    pub loads : (id : Uuid) (w : W) → log (lp.memory.load id w).1 ≡ log w
    pub appends :
        (id : Uuid) (m : ConversationMessage) (w : W) → log (lp.memory.append id m w).1 ≡ log w
    pub tools_keep : (sent : List (List Message)) → KeptByTools env lp (λ w. log w ≡ sent)
