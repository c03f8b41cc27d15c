-- ===== src/Orchestrator/Loop/Contract.antt =====
-- What a run of the reasoning loop of crates/roos-orchestrator/src/loop_.rs asks of its provider,
-- tools and memory, and which results are good.
use roos.Base.{ℕ, suc, ◌≤◌, ◌≡◌, List, Result, ok, err, All}
use roos.Core.Types.{Uuid, TokenUsage, no_usage, add, ToolCallRecord, AgentOutput}
use roos.Core.Error.{
  AgentError, provider_error, max_steps_exceeded, context_window_exceeded, memory_error,
}
use roos.Core.Memory.{ConversationMessage}
use roos.Core.Provider.{Message, CompletionConfig, CompletionResponse}
use roos.Orchestrator.Calls.{Platform, ReasoningLoop}
use roos.Orchestrator.Calls.Outcomes.{HasOneOutcome, KeptByTools}

module _ {W J T C : Type 0} (env : Platform W J T C) (lp : ReasoningLoop W J) (P : ℕ → W → Type 0)
    (U : TokenUsage → Type 0) where
  -- `P n` holds of the world after `n` completions, and `U` of the token counts: each completion
  -- takes `P n` to `P (n + 1)`, and the memory and every permitted tool run keep it.
  pub record Contract : Type 0 where
    pub completes :
        (n : ℕ) (messages : List Message) (config : CompletionConfig J) (w : W)
        → P n w
        → P (suc n) (lp.provider.complete messages config w).1
    pub uses :
        (messages : List Message) (config : CompletionConfig J) (w : W)
        (response : CompletionResponse J) (u : TokenUsage)
        → (lp.provider.complete messages config w).0 ≡ ok response
        → U u
        → U (add u response.usage)
    pub unused : U no_usage
    pub tools_keep : (n : ℕ) → KeptByTools env lp (P n)
    pub loads : (n : ℕ) (id : Uuid) (w : W) → P n w → P n (lp.memory.load id w).1
    pub appends :
        (n : ℕ) (id : Uuid) (m : ConversationMessage) (w : W)
        → P n w
        → P n (lp.memory.append id m w).1

module _ {J T : Type 0} where
  -- A record with one outcome, of a step from 1 to `k`.
  abbrev pub IsRecordWithin : ℕ → ToolCallRecord J T → Type 0
  IsRecordWithin k r = HasOneOutcome r × (1 ≤ r.step) × (r.step ≤ k)

module _ {W : Type 0} (P : ℕ → W → Type 0) where
  -- The world after at most `limit` completions.
  abbrev pub After : ℕ → W → Type 0
  After limit w = (n : ℕ) × (n ≤ limit) × P n w

module _ {W J T : Type 0} (P : ℕ → W → Type 0) (U : TokenUsage → Type 0) (limit : ℕ)
    (run_id : Uuid) where
  pub record IsGoodOutput (out : AgentOutput J T) (w : W) : Type 0 where
    pub some_step : 1 ≤ out.steps_taken
    pub step_bound : out.steps_taken ≤ limit
    pub completions : P out.steps_taken w
    pub tokens : U out.total_tokens
    pub records : All (IsRecordWithin out.steps_taken) out.tools_called
    pub same_run : out.run_id ≡ run_id

  -- The results of a run, with the world that each leaves. A `ConfigurationError` (a refused
  -- transition) and a `ToolError` are none of them.
  abbrev pub IsGood : Result AgentError (AgentOutput J T) → W → Type 0
  IsGood (ok out) w = IsGoodOutput out w
  IsGood (err (max_steps_exceeded n)) w = (n ≡ limit) × P limit w
  IsGood (err (provider_error msg)) w = After P limit w
  IsGood (err context_window_exceeded) w = After P limit w
  IsGood (err (memory_error msg)) w = After P limit w
  IsGood (err _) w = ⊥
