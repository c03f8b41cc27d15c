-- ===== src/Core/Supervisor/Runs.antt =====
-- How a run of the supervisor of crates/roos-core/src/supervisor.rs ends.
use roos.Base.{
  ◌≡◌, refl, ap, Text, length, join, none, some, Option-cases, List, [], ◌∷◌, ◌++◌, Result, ok, err,
  Fault, raised, Result-cases, inl, inr,
}
use roos.Core.Bus
use roos.Core.Bus.{Channels, RoosAgentBus, BusError}
use roos.Core.Error.{AgentError, provider_error}
use roos.Core.Provider
use roos.Core.Provider.{CompletionConfig, CompletionResponse, ProviderError}
use roos.Core.Supervisor.{SupervisorAgent, newline, no_content, report, dispatch, request, run}
use roos.Core.Supervisor.Replies.{AllReplied}
use roos.Core.Supervisor.Subtasks.{Subtask, parse_subtasks}
use roos.Core.Types.{AgentInput, AgentOutput}

module _ {W S V R P B L : Type 0} (channels : Channels W S V R P B L) (bus : RoosAgentBus S B) where
  -- Every subtask was answered, or the first that could not be sent ended the dispatch.
  abbrev pub Dispatched : List Subtask → W → Result (Fault AgentError) (List Text) → W → Type 0
  Dispatched sts w (ok lines) w' = AllReplied channels bus sts lines w w'
  Dispatched sts w (err fault) w' =
      (before : List Subtask) × (st : Subtask) × (later : List Subtask) × (lines : List Text)
      × (v : W) × (e : BusError) × (sts ≡ before ++ st ∷ later)
      × AllReplied channels bus before lines w v
      × (Bus.send channels bus st.agent st.task v ≡ (err e, w'))
      × (fault ≡ raised (provider_error (Bus.display e)))

  dispatch_one :
      (st : Subtask) (sts : List Subtask) (w v : W) (reply : Text)
      (rest : Result (Fault AgentError) (List Text) × W)
      → Bus.send channels bus st.agent st.task w ≡ (ok reply, v)
      → dispatch channels bus sts v ≡ rest
      → Dispatched sts v rest.0 rest.1
      → Dispatched
          (st ∷ sts)
          w
          (dispatch channels bus (st ∷ sts) w).0
          (dispatch channels bus (st ∷ sts) w).1
  unfolding dispatch
  dispatch_one st sts w v reply (ok lines, w') sent gone h =
      rw (sent, gone) (reply, v, sent, refl, h)
  dispatch_one st sts w v reply (err fault, w') sent gone
        (before, s, later, lines, u, e, p, q, r, f) =
      rw (sent, gone)
        (
          st ∷ before,
          s,
          later,
          report st reply ∷ lines,
          u,
          e,
          ap (λ l. st ∷ l) p,
          (reply, v, sent, refl, q),
          r,
          f,
        )

  dispatch_first :
      (st : Subtask) (sts : List Subtask) (w : W) (x : Result BusError Text × W)
      → Bus.send channels bus st.agent st.task w ≡ x
      → ((v : W) → Dispatched sts v (dispatch channels bus sts v).0 (dispatch channels bus sts v).1)
      → Dispatched
          (st ∷ sts)
          w
          (dispatch channels bus (st ∷ sts) w).0
          (dispatch channels bus (st ∷ sts) w).1
  unfolding dispatch
  dispatch_first st sts w (ok reply, v) h rest =
      dispatch_one st sts w v reply (dispatch channels bus sts v) h refl (rest v)
  dispatch_first st sts w (err e, v) h rest = rw h ([], st, sts, [], w, e, refl, refl, h, refl)

  dispatch-Dispatched :
      (sts : List Subtask) (w : W)
      → Dispatched sts w (dispatch channels bus sts w).0 (dispatch channels bus sts w).1
  unfolding dispatch
  dispatch-Dispatched [] w = refl
  dispatch-Dispatched (st ∷ sts) w =
      dispatch_first st sts w (Bus.send channels bus st.agent st.task w) refl
        (dispatch-Dispatched sts)

module _ {W J S V R P B L T : Type 0} (channels : Channels W S V R P B L)
    (from_str : Text → Result Text (List Subtask)) (self : SupervisorAgent W J S B)
    (input : AgentInput J) where
  -- The ways in which a run from the world `w` ends: in the model's answer, in its parsing, at a
  -- subtask that cannot be sent, or with the lines of all replies.
  pub data Ending (w : W) (r : Result (Fault AgentError) (AgentOutput J T)) (w' : W) : Type 0 where
    unanswered :
        (e : ProviderError)
        → self.provider.complete (Provider.user input.content ∷ []) (request self) w ≡ (err e, w')
        → r ≡ err (raised (provider_error (Provider.display e)))
        → Ending w r w'
    silent :
        (response : CompletionResponse J)
        → self.provider.complete (Provider.user input.content ∷ []) (request self) w
          ≡ (ok response, w')
        → response.content ≡ none
        → r ≡ err (raised no_content)
        → Ending w r w'
    unplanned :
        (response : CompletionResponse J) (text : Text) (fault : Fault AgentError)
        → self.provider.complete (Provider.user input.content ∷ []) (request self) w
          ≡ (ok response, w')
        → response.content ≡ some text
        → parse_subtasks from_str text ≡ err fault
        → r ≡ err fault
        → Ending w r w'
    stopped :
        (response : CompletionResponse J) (text : Text) (v : W) (sts : List Subtask)
        (fault : Fault AgentError)
        → self.provider.complete (Provider.user input.content ∷ []) (request self) w
          ≡ (ok response, v)
        → response.content ≡ some text
        → parse_subtasks from_str text ≡ ok sts
        → Dispatched channels self.bus sts v (err fault) w'
        → r ≡ err fault
        → Ending w r w'
    finished :
        (response : CompletionResponse J) (text : Text) (v : W) (sts : List Subtask)
        (lines : List Text)
        → self.provider.complete (Provider.user input.content ∷ []) (request self) w
          ≡ (ok response, v)
        → response.content ≡ some text
        → parse_subtasks from_str text ≡ ok sts
        → AllReplied channels self.bus sts lines v w'
        → r
          ≡ ok (record {
            content = join newline lines;
            steps_taken = length sts;
            tools_called = [];
            total_tokens = response.usage;
            run_id = input.run_id;
          })
        → Ending w r w'

  sent_on :
      (response : CompletionResponse J) (text : Text) (w v : W) (sts : List Subtask)
      (x : Result (Fault AgentError) (List Text) × W)
      → self.provider.complete (Provider.user input.content ∷ []) (request self) w
        ≡ (ok response, v)
      → response.content ≡ some text
      → parse_subtasks from_str text ≡ ok sts
      → dispatch channels self.bus sts v ≡ x
      → Dispatched channels self.bus sts v x.0 x.1
      → Ending w
          (run {T = T} channels from_str self input w).0
          (run {T = T} channels from_str self input w).1
  unfolding run
  sent_on response text w v sts (ok lines, w') p q r gone h =
      rw (p, q, r, gone) (finished response text v sts lines p q r h refl)
  sent_on response text w v sts (err fault, w') p q r gone h =
      rw (p, q, r, gone) (stopped response text v sts fault p q r h refl)

  ends :
      (w : W) (x : Result ProviderError (CompletionResponse J) × W)
      → self.provider.complete (Provider.user input.content ∷ []) (request self) w ≡ x
      → Ending w
          (run {T = T} channels from_str self input w).0
          (run {T = T} channels from_str self input w).1
  unfolding run
  ends w (err e, v) h = rw h (unanswered e h refl)
  ends w (ok response, v) h = elim (Option-cases response.content) [
    | inl p ↦ rw (h, p) (silent response h p refl)
    | inr (text, p) ↦ elim (Result-cases (parse_subtasks from_str text)) [
      | inr (fault, q) ↦ rw (h, p, q) (unplanned response text fault h p q refl)
      | inl (sts, q) ↦
          sent_on response text w v sts (dispatch channels self.bus sts v) h p q refl
            (dispatch-Dispatched channels self.bus sts v)
    ]
  ]

  -- Every run of the supervisor ends in one of these ways: the model fails or gives no text, its text
  -- is no list of subtasks, the first subtask that cannot be sent ends the run with its error after
  -- the subtasks before it were answered, or every subtask was sent in order and the output is the
  -- replies, a line each.
  pub run-Ending :
      (w : W)
      → Ending w
          (run {T = T} channels from_str self input w).0
          (run {T = T} channels from_str self input w).1
  run-Ending w =
      ends w (self.provider.complete (Provider.user input.content ∷ []) (request self) w) refl
