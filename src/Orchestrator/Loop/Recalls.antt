-- ===== src/Orchestrator/Loop/Recalls.antt =====
-- What a second run of crates/roos-orchestrator/src/loop_.rs with the id of a first one is shown of it.
use roos.Base.{
  ◌+◌, ◌<◌, ◌^◌, ◌≡◌, refl, ap, subst, ◌∙◌, Text, Option, none, some, List, [], ◌∷◌, ◌++◌,
  map-append, append_assoc, ok, nat_eq_iff,
}
use roos.Core.Types.{Uuid, AgentInput, AgentOutput}
use roos.Core.Memory
use roos.Core.Memory.{ConversationHistory, ConversationMessage}
use roos.Core.Provider
use roos.Core.Provider.{Message, CompletionConfig}
use roos.MemoryStore.Spec.{Histories, or_new}
use roos.Orchestrator.Calls.{Platform, ReasoningLoop}
use roos.Orchestrator.Loop.{max_steps_or, history_messages, run}
use roos.Orchestrator.Loop.Persists.{Backed, Persisted, run-Persisted}
use roos.Orchestrator.Loop.Rule.{Returns}
use roos.Orchestrator.Loop.Sends.{first_request, run-Said}
use roos.Orchestrator.Loop.Transcript.{Logs, Said}

history_messages-or_new :
    (id : Uuid) (o : Option ConversationHistory)
    → history_messages (some (or_new id o)) ≡ history_messages o
unfolding Memory.new
history_messages-or_new id none = refl
history_messages-or_new id (some h) = refl

-- The first request over a history that ends with an answer of the assistant.
first_request-push :
    {J : Type 0} (input : AgentInput J) (content : Text) (h : ConversationHistory)
    → first_request input (some (Memory.push h (Memory.assistant content)))
      ≡ history_messages (some h) ++ Provider.assistant content ∷ Provider.user input.content ∷ []
unfolding Memory.push Memory.assistant Provider.assistant
first_request-push input content h = rw (map-append, append_assoc) refl

module _ {W J T C : Type 0} (env : Platform W J T C) (lp : ReasoningLoop W J) (Good : W → Type 0)
    (view : W → Histories) (back : Backed env lp Good view) (log : W → List (List Message))
    (logs : Logs env lp log) (config : CompletionConfig J) where
  -- After a run with an output, the memory loads what it held before, and the output.
  loaded_after :
      (input : AgentInput J) (id : Uuid) (out : AgentOutput J T) (w w' w'' : W)
      (history : Option ConversationHistory)
      → id ≡ input.run_id
      → Persisted Good view (view w) input.run_id (ok out) w'
      → lp.memory.load id w' ≡ (ok history, w'')
      → history
        ≡ some
            (Memory.push (or_new input.run_id (view w input.run_id)) (Memory.assistant out.content))
  loaded_after input id out w w' w'' history same (good, kept) loads =
      (back.memory.load_ok id w' w'' history good loads).0
      ∙ kept id
      ∙ rw (same, (nat_eq_iff input.run_id input.run_id).1 refl) refl

  -- A second run with the id of a first one that gave an output, over a memory that implements the
  -- abstract memory: if the memory loads the history then, the second run ends, and the first
  -- request of the conversation that it sends is the messages that were stored before the first run,
  -- the output of the first run as the assistant's, and the second input; what the user asked in the
  -- first run is not among them. The conditions: `max_steps + 1` of both inputs is below 2^64, the
  -- provider and the permitted tools leave the histories alone, and `log` records what each
  -- completion is sent, and nothing else changes it.
  pub second_run-Said :
      (first second : AgentInput J) (out : AgentOutput J T) (w w' w'' : W)
      (history : Option ConversationHistory)
      → max_steps_or first.max_steps + 1 < 2 ^ 64
      → max_steps_or second.max_steps + 1 < 2 ^ 64
      → Good w
      → second.run_id ≡ first.run_id
      → run env lp first config w ≡ some (ok out, w')
      → lp.memory.load second.run_id w' ≡ (ok history, w'')
      → Returns
          (Said env lp config
            (history_messages (view w first.run_id)
              ++ Provider.assistant out.content ∷ Provider.user second.content ∷ [])
            log
            (log w'))
          (run env lp second config w')
  second_run-Said first second out w w' w'' history fits fits' good same gave loads =
      let persisted : Returns (Persisted Good view (view w) first.run_id) (some (ok out, w')) =
        subst (Returns (Persisted Good view (view w) first.run_id)) gave
          (run-Persisted env lp Good view back first config w fits good) in
      let held = or_new first.run_id (view w first.run_id) in
      let start : first_request second history
          ≡ history_messages (view w first.run_id)
            ++ Provider.assistant out.content ∷ Provider.user second.content ∷ [] =
        ap (first_request second)
          (loaded_after first second.run_id out w w' w'' history same persisted loads)
        ∙ first_request-push second out.content held
        ∙ ap (λ ms. ms ++ Provider.assistant out.content ∷ Provider.user second.content ∷ [])
            (history_messages-or_new first.run_id (view w first.run_id)) in
      subst (λ s. Returns (Said env lp config s log (log w')) (run env lp second config w')) start
        (run-Said env lp log logs second config history w' w'' fits' loads)
