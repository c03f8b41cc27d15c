-- ===== src/Orchestrator/Loop/Ends.antt =====
-- That every run of crates/roos-orchestrator/src/loop_.rs ends.
use roos.Base.{◌+◌, ◌<◌, ◌^◌, Result}
use roos.Core.Types.{AgentInput, AgentOutput}
use roos.Core.Error.{AgentError}
use roos.Core.Provider.{CompletionConfig}
use roos.Orchestrator.Calls.{Platform, ReasoningLoop}
use roos.Orchestrator.Loop.{max_steps_or, run}
use roos.Orchestrator.Loop.Contract.{Contract}
use roos.Orchestrator.Loop.Correct.{run-IsGood}
use roos.Orchestrator.Loop.Rule.{Returns, ReturnsIf, Returns-ReturnsIf}

module _ {W J T C : Type 0} (env : Platform W J T C) (lp : ReasoningLoop W J) where
  -- Every provider, memory and set of tools meets the contract that asks for nothing.
  any_contract : Contract env lp (λ n w. Unit {0}) (λ u. Unit {0})
  any_contract = record {
    completes = λ n messages config w p. tt;
    uses = λ messages config w response u h q. tt;
    unused = tt;
    tools_keep = λ n call tool w permitted p. tt;
    loads = λ n id w p. tt;
    appends = λ n id message w p. tt;
  }

  -- What holds of a run that ends holds of every run with `max_steps + 1` below 2^64.
  pub run-returns :
      (Q : Result AgentError (AgentOutput J T) → W → Type 0) (input : AgentInput J)
      (config : CompletionConfig J) (w : W)
      → max_steps_or input.max_steps + 1 < 2 ^ 64
      → ReturnsIf Q (run env lp input config w)
      → Returns Q (run env lp input config w)
  run-returns Q input config w fits h =
      Returns-ReturnsIf _ Q (run env lp input config w)
        (run-IsGood env lp _ _ any_contract input config w fits tt) h
