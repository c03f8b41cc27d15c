-- ===== src/Orchestrator/Loop/Rule.antt =====
-- A proof rule for `loop { … }` of crates/roos-orchestrator/src/loop_.rs.
use roos.Base.{ℕ, zero, suc, Option, none, some, Result}
use roos.Core.Types.{Uuid, AgentOutput}
use roos.Core.Error.{AgentError}
use roos.Core.Provider.{CompletionConfig}
use roos.Orchestrator.Calls.{Platform, ReasoningLoop}
use roos.Orchestrator.Loop.{LoopState, Turn, returned, again, turn, loop}

-- The run ends, and its result and the world it leaves satisfy `Q`.
abbrev pub Returns :
    {W J T : Type 0}
    → (Result AgentError (AgentOutput J T) → W → Type 0)
    → Option (Result AgentError (AgentOutput J T) × W)
    → Type 0
Returns Q none = ⊥
Returns Q (some (r, w)) = Q r w

-- The run does not end, or its result and the world it leaves satisfy `Q`.
abbrev pub ReturnsIf :
    {W J T : Type 0}
    → (Result AgentError (AgentOutput J T) → W → Type 0)
    → Option (Result AgentError (AgentOutput J T) × W)
    → Type 0
ReturnsIf Q none = Unit
ReturnsIf Q (some (r, w)) = Q r w

pub Returns-ReturnsIf :
    {W J T : Type 0} (R Q : Result AgentError (AgentOutput J T) → W → Type 0)
    (o : Option (Result AgentError (AgentOutput J T) × W))
    → Returns R o
    → ReturnsIf Q o
    → Returns Q o
Returns-ReturnsIf R Q none ends h = ends
Returns-ReturnsIf R Q (some (r, w)) ends h = h

module _ {W J T : Type 0} where
  -- A turn returns a result in `Q`, or goes on from a state in `I`.
  abbrev pub Post :
      (LoopState J T → W → Type 0)
      → (Result AgentError (AgentOutput J T) → W → Type 0)
      → Turn J T × W
      → Type 0
  Post I Q (returned r, w) = Q r w
  Post I Q (again st, w) = I st w

module _ {W J T C : Type 0} (env : Platform W J T C) (lp : ReasoningLoop W J)
    (config : CompletionConfig J) (limit : ℕ) (run_id : Uuid) (I : ℕ → LoopState J T → W → Type 0)
    (Q : Result AgentError (AgentOutput J T) → W → Type 0)
    (keep : (n : ℕ) (st : LoopState J T) (w : W)
      → I (suc n) st w
      → Post (I n) Q (turn env lp config limit run_id st w))
    (stop : (st : LoopState J T) (w : W) → ¬ I zero st w) where
  go_on :
      (n : ℕ)
      → ((st : LoopState J T) (w : W)
          → I n st w
          → Returns Q (loop env lp config limit run_id n st w))
      → (t : Turn J T) (w : W) → Post (I n) Q (t, w)
      → Returns Q
          (elim t [ returned r ↦ some (r, w) | again st ↦ loop env lp config limit run_id n st w ])
  go_on n later (returned r) w h = h
  go_on n later (again st) w h = later st w h

  -- `I n` is the invariant with `n` turns left, and cannot hold with none.
  pub loop_rule :
      (n : ℕ) (st : LoopState J T) (w : W)
      → I n st w
      → Returns Q (loop env lp config limit run_id n st w)
  unfolding loop
  loop_rule zero st w h = absurd (stop st w h)
  loop_rule (suc n) st w h =
      go_on n (loop_rule n) (turn env lp config limit run_id st w).0
        (turn env lp config limit run_id st w).1 (keep n st w h)

module _ {W J T C : Type 0} (env : Platform W J T C) (lp : ReasoningLoop W J)
    (config : CompletionConfig J) (limit : ℕ) (run_id : Uuid) (I : LoopState J T → W → Type 0)
    (Q : Result AgentError (AgentOutput J T) → W → Type 0)
    (keep : (st : LoopState J T) (w : W)
      → I st w
      → Post I Q (turn env lp config limit run_id st w)) where
  go_on_if :
      (n : ℕ)
      → ((st : LoopState J T) (w : W)
          → I st w
          → ReturnsIf Q (loop env lp config limit run_id n st w))
      → (t : Turn J T) (w : W) → Post I Q (t, w)
      → ReturnsIf Q
          (elim t [ returned r ↦ some (r, w) | again st ↦ loop env lp config limit run_id n st w ])
  go_on_if n later (returned r) w h = h
  go_on_if n later (again st) w h = later st w h

  -- An invariant that does not count the turns gives the result of a loop that ends.
  pub loop_rule_if :
      (n : ℕ) (st : LoopState J T) (w : W)
      → I st w
      → ReturnsIf Q (loop env lp config limit run_id n st w)
  unfolding loop
  loop_rule_if zero st w h = tt
  loop_rule_if (suc n) st w h =
      go_on_if n (loop_rule_if n) (turn env lp config limit run_id st w).0
        (turn env lp config limit run_id st w).1 (keep st w h)
