-- ===== src/Core/Agent.antt =====
-- crates/roos-core/src/agent.rs: the `Agent` trait. A `run` may panic, as any method may.
use roos.Base.{Text, Fault}
use roos.Base.Action.{Action}
use roos.Core.Error.{AgentError}
use roos.Core.Types.{AgentInput, AgentOutput}

pub record Agent (W J T : Type 0) : Type 0 where
  pub name : Text
  pub description : Text
  pub run : AgentInput J → Action W (Fault AgentError) (AgentOutput J T)
