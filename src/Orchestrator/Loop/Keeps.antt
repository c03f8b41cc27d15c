-- ===== src/Orchestrator/Loop/Keeps.antt =====
-- What a whole run of crates/roos-orchestrator/src/loop_.rs keeps, from what its parts keep.
use roos.Base.{
  ℕ, ◌+◌, ◌<◌, ◌^◌, ◌≡◌, subst, text_Eq, text_eq, Bool-cases, inl, inr, Text, Option, none, some,
  List, [], ◌∷◌, Result, ok, err, All,
}
use roos.Base.Dict
use roos.Base.Dict.{Dict, get-insert}
use roos.Core.Types.{Uuid, AgentInput, AgentOutput}
use roos.Core.Error.{
  AgentError, provider_error, tool_error, max_steps_exceeded, context_window_exceeded, memory_error,
  configuration_error,
}
use roos.Core.Memory.{Memory, ConversationMessage}
use roos.Core.Provider.{Message, CompletionConfig, LlmProvider}
use roos.Core.Tool.{Tool}
use roos.Orchestrator.Calls
use roos.Orchestrator.Calls.{Platform, ReasoningLoop, collect}
use roos.Orchestrator.Calls.Outcomes.{KeptByTools}
use roos.Orchestrator.Loop.{max_steps_or, run}
use roos.Orchestrator.Loop.Contract.{Contract, IsGood}
use roos.Orchestrator.Loop.Correct.{run-IsGood}
use roos.Orchestrator.Loop.Rule.{Returns}

module _ {W : Type 0} (P : W → Type 0) where
  -- Each method keeps `P`.
  pub record Keepers {J : Type 0} (provider : LlmProvider W J) (memory : Memory W) : Type 0 where
    pub completes :
        (messages : List Message) (config : CompletionConfig J) (w : W)
        → P w
        → P (provider.complete messages config w).1
    pub loads : (id : Uuid) (w : W) → P w → P (memory.load id w).1
    pub appends : (id : Uuid) (m : ConversationMessage) (w : W) → P w → P (memory.append id m w).1

  abbrev pub KeptBy : {J : Type 0} → Tool W J → Type 0
  KeptBy {J} tool = (input : J) (w : W) → P w → P (tool.execute input w).1

module _ {W J : Type 0} (Q : Tool W J → Type 0) where
  -- Whatever a registry finds has `Q`.
  abbrev Found : Dict Text (Tool W J) → Type 0
  Found registry = (k : Text) (tool : Tool W J) → Dict.get registry k ≡ some tool → Q tool

  collect-Found :
      (registry : Dict Text (Tool W J)) (tools : List (Tool W J))
      → Found registry
      → All Q tools
      → Found (collect registry tools)
  unfolding collect
  collect-Found registry [] h all = h
  collect-Found registry (t ∷ ts) h all =
      collect-Found (Dict.insert registry t.name t) ts
        (λ k tool found. elim (Bool-cases (text_eq t.name k)) [
          | inl same ↦
              let e : some t ≡ some tool = rw (get-insert registry t.name k t, same) at found in
              let this : t ≡ tool = cc in subst Q this all.0
          | inr other ↦ h k tool (rw (get-insert registry t.name k t, other) at found)
        ])
        all.1

-- The permitted tools of a new loop are those that it is made with.
pub new-KeptByTools :
    {W J T C : Type 0} (env : Platform W J T C) (P : W → Type 0) (provider : LlmProvider W J)
    (tools : List (Tool W J)) (memory : Memory W)
    → All (KeptBy P) tools
    → KeptByTools env (Calls.new provider tools memory) P
unfolding Calls.new Dict.get
new-KeptByTools env P provider tools memory kept call tool w permitted p =
    collect-Found (KeptBy P) Dict.empty tools (λ k t found. absurd (cc)) kept call.name tool
      permitted.0 call.input w p

module _ {W J T C : Type 0} (env : Platform W J T C) (P : W → Type 0) (provider : LlmProvider W J)
    (tools : List (Tool W J)) (memory : Memory W) (keepers : Keepers P provider memory)
    (kept : All (KeptBy P) tools) where
  abbrev lp : ReasoningLoop W J
  lp = Calls.new provider tools memory

  contract : Contract env lp (λ n. P) (λ u. Unit {0})
  unfolding Calls.new
  contract = record {
    completes = λ n messages config w p. keepers.completes messages config w p;
    uses = λ messages config w response u h q. tt;
    unused = tt;
    tools_keep = λ n. new-KeptByTools env P provider tools memory kept;
    loads = λ n id w p. keepers.loads id w p;
    appends = λ n id message w p. keepers.appends id message w p;
  }

  good_kept :
      (limit : ℕ) (id : Uuid) (o : Option (Result AgentError (AgentOutput J T) × W))
      → Returns (IsGood (λ n. P) (λ u. Unit {0}) limit id) o
      → Returns (λ r. P) o
  good_kept limit id none h = h
  good_kept limit id (some (ok out, w)) h = h.completions
  good_kept limit id (some (err (max_steps_exceeded n), w)) h = h.1
  good_kept limit id (some (err (provider_error msg), w)) h = h.2
  good_kept limit id (some (err context_window_exceeded, w)) h = h.2
  good_kept limit id (some (err (memory_error msg), w)) h = h.2
  good_kept limit id (some (err (tool_error name source), w)) h = absurd (h)
  good_kept limit id (some (err (configuration_error msg), w)) h = absurd (h)

  -- A run ends, and what the provider, the memory and every tool keep holds of the world it leaves.
  pub run-keeps :
      (input : AgentInput J) (config : CompletionConfig J) (w : W)
      → max_steps_or input.max_steps + 1 < 2 ^ 64
      → P w
      → Returns (λ r. P) (run env lp input config w)
  run-keeps input config w fits p =
      good_kept (max_steps_or input.max_steps) input.run_id (run env lp input config w)
        (run-IsGood env lp (λ n. P) (λ u. Unit {0}) contract input config w fits p)
