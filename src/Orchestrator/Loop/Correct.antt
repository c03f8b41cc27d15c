-- ===== src/Orchestrator/Loop/Correct.antt =====
-- What a run of the reasoning loop of crates/roos-orchestrator/src/loop_.rs guarantees, for any
-- provider, tools and memory that keep a predicate of the world.
use roos.Base.{
  ℕ, zero, suc, ◌+◌, ◌≤◌, ◌<◌, ◌^◌, ◌≡◌, refl, sym, ap, subst, codes, ltb, Bool-cases, inl, inr,
  Option, List, [], ◌∷◌, Result, ok, err, All, arith,
}
use roos.Core.Types.{
  Uuid, usize, TokenUsage, no_usage, add, ToolCallRecord, AgentInput, AgentOutput,
}
use roos.Core.Error.{AgentError}
use roos.Core.Memory.{MemoryError, ConversationHistory}
use roos.Core.Provider.{
  Message, StopReason, end_turn, tool_use, max_tokens, stop_sequence, CompletionConfig,
  CompletionResponse, ProviderError,
}
use roos.Orchestrator.State
use roos.Orchestrator.State.{AgentState, reasoning, calling_tool, idle}
use roos.Orchestrator.Calls.{Platform, ReasoningLoop, execute_calls}
use roos.Orchestrator.Calls.Outcomes.{execute_calls-keeps, execute_calls-records}
use roos.Orchestrator.Loop.{
  LoopState, appended, finish_turn, act, on_stop, with_text, observe, turn, loop, max_steps_or,
  initial, loaded, run,
}
use roos.Orchestrator.Loop.Contract.{Contract, IsRecordWithin, IsGood}
use roos.Orchestrator.Loop.Rule.{Returns, Post, loop_rule}

module _ {W J T C : Type 0} (env : Platform W J T C) (lp : ReasoningLoop W J) (P : ℕ → W → Type 0)
    (U : TokenUsage → Type 0) (con : Contract env lp P U) (config : CompletionConfig J) (limit : ℕ)
    (fits : limit + 1 < 2 ^ 64) (run_id : Uuid) where
  abbrev Good : Result AgentError (AgentOutput J T) → W → Type 0
  Good = IsGood P U limit run_id

  abbrev at_step : ℕ → List Message → TokenUsage → List (ToolCallRecord J T) → LoopState J T
  at_step k m u rs = record {
    state = reasoning k;
    messages = m;
    total_tokens = u;
    tools_called = rs;
  }

  -- Before a turn: `done` completions were made, and `n` turns are left.
  data Inv : ℕ → LoopState J T → W → Type 0 where
    at :
        (done n : ℕ) (m : List Message) (u : TokenUsage) (rs : List (ToolCallRecord J T)) (w : W)
        → done ≤ limit
        → done + n ≡ suc limit
        → P done w
        → U u
        → All (IsRecordWithin done) rs
        → Inv n (at_step (suc done) m u rs) w

  Inv-stop : (st : LoopState J T) (w : W) → ¬ Inv zero st w
  Inv-stop st w (at done n m u rs w' a b p q r) = omega arith

  IsRecordWithin-suc :
      (k : ℕ) (rs : List (ToolCallRecord J T))
      → All (IsRecordWithin k) rs
      → All (IsRecordWithin (suc k)) rs
  IsRecordWithin-suc k [] h = tt
  IsRecordWithin-suc k (r ∷ rs) ((o, a, b), h) = ((o, a, omega arith), IsRecordWithin-suc k rs h)

  module _ (done n : ℕ) (room : done < limit) (left : done + suc n ≡ suc limit) where
    next_step : usize (suc done + 1) ≡ suc (suc done)
    next_step = omega (arith, fits)

    appended-Good :
        (out : AgentOutput J T) (x : Result MemoryError (Unit {0}) × W)
        → P (suc done) x.1
        → out.steps_taken ≡ suc done
        → U out.total_tokens
        → All (IsRecordWithin (suc done)) out.tools_called
        → out.run_id ≡ run_id
        → Post (Inv n) Good (appended env lp out x)
    appended-Good out (ok _, w) p e q r i = record {
      some_step = omega arith;
      step_bound = omega arith;
      completions = rw e p;
      tokens = q;
      records = rw e r;
      same_run = i;
    }
    appended-Good out (err e, w) p _ q r i = (suc done, room, p)

    finish-Good :
        (response : CompletionResponse J) (m : List Message) (u : TokenUsage)
        (rs : List (ToolCallRecord J T)) (w : W)
        → P (suc done) w
        → U u
        → All (IsRecordWithin done) rs
        → Post (Inv n) Good (finish_turn env lp run_id response (at_step (suc done) m u rs) w)
    unfolding finish_turn State.step
    finish-Good response m u rs w p q r =
        appended-Good _ (lp.memory.append run_id _ w) (con.appends (suc done) run_id _ w p) refl q
          (IsRecordWithin-suc done rs r) refl

    act-Good :
        (response : CompletionResponse J) (m : List Message) (u : TokenUsage)
        (rs : List (ToolCallRecord J T)) (w : W)
        → P (suc done) w
        → U u
        → All (IsRecordWithin done) rs
        → Post (Inv n) Good (
            act env lp
              (State.call_tool (reasoning (suc done)) (codes "batch"))
              response
              (at_step (suc done) m u rs)
              w)
    unfolding State.call_tool State.tool_done State.continue_reasoning State.step
    act-Good response m u rs w p q r =
        let calls = response.tool_calls in
        let (m', rs', w') = execute_calls env lp calls (suc done) m rs w in
        subst (λ k. Inv n (at_step k m' u rs') w') (sym next_step)
          (at (suc done) n m' u rs' w' room (omega arith)
            (execute_calls-keeps env lp (P (suc done)) (con.tools_keep (suc done)) calls (suc done)
              m rs w p)
            q
            (execute_calls-records env lp (IsRecordWithin (suc done)) (suc done)
              (λ x (o, e). (o, omega arith, omega arith)) calls m rs w
              (IsRecordWithin-suc done rs r)))

    on_stop-Good :
        (reason : StopReason) (response : CompletionResponse J) (m : List Message) (u : TokenUsage)
        (rs : List (ToolCallRecord J T)) (w : W)
        → P (suc done) w
        → U u
        → All (IsRecordWithin done) rs
        → Post (Inv n) Good (on_stop env lp reason run_id response (at_step (suc done) m u rs) w)
    on_stop-Good end_turn response m u rs w p q r = finish-Good response m u rs w p q r
    on_stop-Good stop_sequence response m u rs w p q r = finish-Good response m u rs w p q r
    on_stop-Good tool_use response m u rs w p q r = act-Good response m u rs w p q r
    on_stop-Good max_tokens response m u rs w p q r = (suc done, room, p)

    observe-Good :
        (m : List Message) (u : TokenUsage) (rs : List (ToolCallRecord J T)) (w : W)
        (x : Result ProviderError (CompletionResponse J) × W)
        → lp.provider.complete m config w ≡ x
        → P done w
        → U u
        → All (IsRecordWithin done) rs
        → Post (Inv n) Good (observe env lp run_id (at_step (suc done) m u rs) x)
    unfolding observe
    observe-Good m u rs w (err e, w') x p q r =
        (suc done, room, subst (λ y. P (suc done) y.1) x (con.completes done m config w p))
    observe-Good m u rs w (ok response, w') x p q r =
        on_stop-Good response.stop_reason response (with_text env lp m response.content)
          (add u response.usage) rs w'
          (subst (λ y. P (suc done) y.1) x (con.completes done m config w p))
          (con.uses m config w response u (ap (λ y. y.0) x) q) r

  Inv-keep :
      (n : ℕ) (st : LoopState J T) (w : W)
      → Inv (suc n) st w
      → Post (Inv n) Good (turn env lp config limit run_id st w)
  unfolding turn State.step
  Inv-keep n st w (at done _ m u rs _ a b p q r) = elim (Bool-cases (ltb limit (suc done))) [
    | inl over ↦
        let last : done ≡ limit = ground (arith, over) in rw over (refl, subst (λ k. P k w) last p)
    | inr within ↦ rw within (
        observe-Good done n (ground (arith, within)) b m u rs w (lp.provider.complete m config w)
          refl p q r)
  ]

  loop-Good :
      (m : List Message) (w : W)
      → P 0 w
      → Returns Good (loop env lp config limit run_id (suc limit) (at_step 1 m no_usage []) w)
  loop-Good m w p =
      loop_rule env lp config limit run_id Inv Good Inv-keep Inv-stop (suc limit) _ w
        (at 0 (suc limit) m no_usage [] w (omega arith) (omega arith) p con.unused tt)

module _ {W J T C : Type 0} (env : Platform W J T C) (lp : ReasoningLoop W J) (P : ℕ → W → Type 0)
    (U : TokenUsage → Type 0) (con : Contract env lp P U) (input : AgentInput J)
    (config : CompletionConfig J) where
  loaded-IsGood :
      (x : Result MemoryError (Option ConversationHistory) × W)
      → max_steps_or input.max_steps + 1 < 2 ^ 64
      → P 0 x.1
      → Returns
          (IsGood P U (max_steps_or input.max_steps) input.run_id)
          (loaded env lp input config x)
  unfolding State.start initial
  loaded-IsGood (err e, w) fits p = (0, omega arith, p)
  loaded-IsGood (ok history, w) fits p =
      loop-Good env lp P U con config (max_steps_or input.max_steps) fits input.run_id _ w p

  -- A run ends, if `max_steps + 1` is below 2^64, for every provider, memory and set of tools that
  -- meet the contract from the world it starts in. An output counts between 1 and `max_steps`
  -- steps, exactly as many completions were made, its token counts satisfy `U`, each of its records
  -- has an output or an error and not both and a step from 1 to the steps taken, and its `run_id`
  -- is the input's. An error is `MaxStepsExceeded(max_steps)` after exactly `max_steps`
  -- completions, or a provider, memory or context window error after at most `max_steps`, and never
  -- a `ConfigurationError` or a `ToolError`.
  pub run-IsGood :
      (w : W)
      → max_steps_or input.max_steps + 1 < 2 ^ 64
      → P 0 w
      → Returns (IsGood P U (max_steps_or input.max_steps) input.run_id) (run env lp input config w)
  unfolding run
  run-IsGood w fits p =
      loaded-IsGood (lp.memory.load input.run_id w) fits (con.loads 0 input.run_id w p)
