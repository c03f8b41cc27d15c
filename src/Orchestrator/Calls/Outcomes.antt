-- ===== src/Orchestrator/Calls/Outcomes.antt =====
-- What the execution of tool calls in crates/roos-orchestrator/src/loop_.rs records and leaves.
use roos.Base.{
  ℕ, Text, text_Eq, codes, ◌≡◌, refl, ap, ◌⊎◌, inl, inr, Option, none, some, List, [], ◌∷◌, ◌++◌,
  map, Result, ok, err, arith, All, All-append, append-nil, append_assoc, ◌∙◌, length, subst, sym,
  ◌+◌, length-append, map-append,
}
use roos.Base.Dict
use roos.Base.Dict.{Dict}
use roos.Core.Types.{ToolCallRecord}
use roos.Core.Provider.{Message, ToolCall}
use roos.Core.Tool
use roos.Core.Tool.{Tool}
use roos.Orchestrator.Validate
use roos.Orchestrator.Validate.{validate_tool_input}
use roos.Orchestrator.Calls.{
  Platform, ReasoningLoop, dispatch_call, guarded, outcome, execute_tool, execute_calls,
}

-- A record has an output or an error, and never both.
abbrev pub HasOneOutcome : {J T : Type 0} → ToolCallRecord J T → Type 0
HasOneOutcome r =
    ((o : Text) × (r.output ≡ some o) × (r.error ≡ none))
    ⊎ ((e : Text) × (r.output ≡ none) × (r.error ≡ some e))

module _ {W J T C : Type 0} (env : Platform W J T C) (lp : ReasoningLoop W J) where
  -- The tool that a call may run: it is registered, and its schema accepts the input.
  abbrev pub IsPermitted : ToolCall J → Tool W J → Type 0
  IsPermitted call tool =
      (Dict.get lp.tools call.name ≡ some tool)
      × (validate_tool_input env.schemas call.name tool.schema call.input ≡ ok tt)

  -- The four ways of a call from the world `w`: a tool that is not registered and an input that
  -- its schema refuses run nothing, and a permitted call runs the tool once.
  pub data CallOutcome (call : ToolCall J) (w : W) (output error : Option Text) (w' : W)
      : Type 0 where
    unregistered :
        Dict.get lp.tools call.name ≡ none
        → w' ≡ w
        → output ≡ none
        → error ≡ some (codes "no tool named '" ++ (call.name ++ codes "'"))
        → CallOutcome call w output error w'
    refused :
        (tool : Tool W J) (e : Validate.ValidationError)
        → Dict.get lp.tools call.name ≡ some tool
        → validate_tool_input env.schemas call.name tool.schema call.input ≡ err e
        → w' ≡ w
        → output ≡ none
        → error ≡ some (Validate.display e)
        → CallOutcome call w output error w'
    succeeded :
        (tool : Tool W J) (out : Text)
        → IsPermitted call tool
        → tool.execute call.input w ≡ (ok out, w')
        → output ≡ some out
        → error ≡ none
        → CallOutcome call w output error w'
    tool_failed :
        (tool : Tool W J) (e : Tool.ToolError)
        → IsPermitted call tool
        → tool.execute call.input w ≡ (err e, w')
        → output ≡ none
        → error ≡ some (Tool.display e)
        → CallOutcome call w output error w'

  abbrev OutcomeOf : ToolCall J → W → Option Text × Option Text × W → Type 0
  OutcomeOf call w r = CallOutcome call w r.0 r.1 r.2

  executed_outcome :
      (call : ToolCall J) (w : W) (tool : Tool W J)
      → IsPermitted call tool
      → (x : Result Tool.ToolError Text × W) → tool.execute call.input w ≡ x
      → OutcomeOf call w (outcome env x)
  executed_outcome call w tool h (ok out, w') p = succeeded tool out h p refl refl
  executed_outcome call w tool h (err e, w') p = tool_failed tool e h p refl refl

  guarded_outcome :
      (call : ToolCall J) (w : W) (tool : Tool W J)
      → Dict.get lp.tools call.name ≡ some tool
      → (v : Result Validate.ValidationError (Unit {0}))
      → validate_tool_input env.schemas call.name tool.schema call.input ≡ v
      → OutcomeOf call w (guarded env tool call.input v w)
  guarded_outcome call w tool p (err e) q = refused tool e p q refl refl refl
  guarded_outcome call w tool p (ok _) q =
      executed_outcome call w tool (p, q) (tool.execute call.input w) refl

  dispatch_outcome :
      (call : ToolCall J) (w : W) (o : Option (Tool W J))
      → Dict.get lp.tools call.name ≡ o
      → OutcomeOf call w (dispatch_call env o call w)
  dispatch_outcome call w none p = unregistered p refl refl refl
  dispatch_outcome call w (some tool) p = guarded_outcome call w tool p _ refl

  -- Every call, whatever its name and input, ends in one of the four ways, and its record names the
  -- call's tool, its input and the step that it belongs to.
  pub execute_tool-outcome :
      (call : ToolCall J) (step : ℕ) (w : W)
      → let (r, w') = execute_tool env lp call step w in
        CallOutcome call w r.output r.error w'
        × (r.tool_name ≡ call.name)
        × (r.input ≡ call.input)
        × (r.step ≡ step)
  unfolding execute_tool
  execute_tool-outcome call step w = (dispatch_outcome call w _ refl, refl, refl, refl)

  CallOutcome-HasOneOutcome :
      {call : ToolCall J} {w w' : W} (r : ToolCallRecord J T)
      → CallOutcome call w r.output r.error w'
      → HasOneOutcome r
  CallOutcome-HasOneOutcome r (unregistered a b c d) = inr (_, c, d)
  CallOutcome-HasOneOutcome r (refused tool e a b c d x) = inr (_, d, x)
  CallOutcome-HasOneOutcome r (succeeded tool out a b c d) = inl (out, c, d)
  CallOutcome-HasOneOutcome r (tool_failed tool e a b c d) = inr (_, c, d)

  -- A predicate of the world that permitted tool runs keep.
  abbrev pub KeptByTools : (W → Type 0) → Type 0
  KeptByTools P =
      (call : ToolCall J) (tool : Tool W J) (w : W)
      → IsPermitted call tool
      → P w
      → P (tool.execute call.input w).1

  CallOutcome-keeps :
      (P : W → Type 0)
      → KeptByTools P
      → {call : ToolCall J} {w w' : W} {output error : Option Text}
      → CallOutcome call w output error w'
      → P w
      → P w'
  CallOutcome-keeps P keep (unregistered a b c d) h = subst P (sym b) h
  CallOutcome-keeps P keep (refused tool e a b c d x) h = subst P (sym c) h
  CallOutcome-keeps P keep {call} {w} (succeeded tool out a b c d) h =
      subst P (ap (λ x. x.1) b) (keep call tool w a h)
  CallOutcome-keeps P keep {call} {w} (tool_failed tool e a b c d) h =
      subst P (ap (λ x. x.1) b) (keep call tool w a h)

  -- A record of the step `k` with one outcome.
  abbrev pub IsRecordOf : ℕ → ToolCallRecord J T → Type 0
  IsRecordOf k r = HasOneOutcome r × (r.step ≡ k)

  execute_tool-IsRecordOf :
      (call : ToolCall J) (step : ℕ) (w : W) → IsRecordOf step (execute_tool env lp call step w).0
  execute_tool-IsRecordOf call step w =
      let (o, a, b, c) = execute_tool-outcome call step w in
      (CallOutcome-HasOneOutcome (execute_tool env lp call step w).0 o, c)

  -- The calls of one response keep what each permitted tool run keeps.
  pub execute_calls-keeps :
      (P : W → Type 0)
      → KeptByTools P
      → (calls : List (ToolCall J)) (step : ℕ) (messages : List Message)
        (records : List (ToolCallRecord J T)) (w : W)
      → P w
      → P (execute_calls env lp calls step messages records w).2
  unfolding execute_calls
  execute_calls-keeps P keep [] step messages records w h = h
  execute_calls-keeps P keep (call ∷ calls) step messages records w h =
      execute_calls-keeps P keep calls step _ _ _
        (CallOutcome-keeps P keep (execute_tool-outcome call step w).0 h)

  -- The records of one response are appended to those of the run.
  pub execute_calls-records :
      (R : ToolCallRecord J T → Type 0) (step : ℕ)
      → ((r : ToolCallRecord J T) → IsRecordOf step r → R r)
      → (calls : List (ToolCall J)) (messages : List Message) (records : List (ToolCallRecord J T))
        (w : W)
      → All R records
      → All R (execute_calls env lp calls step messages records w).1
  unfolding execute_calls
  execute_calls-records R step make [] messages records w h = h
  execute_calls-records R step make (call ∷ calls) messages records w h =
      execute_calls-records R step make calls _ _ _
        (All-append R records _ h (make _ (execute_tool-IsRecordOf call step w), tt))

  -- Each call of a response gives one record and one message, in the order of the calls, behind
  -- those that were there.
  execute_calls-in_order :
      (calls : List (ToolCall J)) (step : ℕ) (messages : List Message)
      (records : List (ToolCallRecord J T)) (w : W)
      → let (messages', records', w') = execute_calls env lp calls step messages records w in
        (map (λ r. r.tool_name) records'
          ≡ map (λ r. r.tool_name) records ++ map (λ c. c.name) calls)
        × (length messages' ≡ length messages + length calls)
  unfolding execute_calls
  execute_calls-in_order [] step messages records w = (sym (append-nil _), omega arith)
  execute_calls-in_order (call ∷ calls) step messages records w =
      let (r, w') = execute_tool env lp call step w in
      let (_, named, _, _) = execute_tool-outcome call step w in
      let (names, count) = execute_calls-in_order calls step _ _ w' in
      (
        names ∙ simp (map-append, append_assoc, named),
        omega (arith, count, length-append messages (_ ∷ [])),
      )
