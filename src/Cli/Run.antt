-- ===== src/Cli/Run.antt =====
-- crates/roos-cli/src/cmd/run.rs: one agent run from a configuration file. What `println!` writes is
-- the list of lines in the result; an `anyhow` error is its text.
pub mod Ends
use roos.Base.{
  ℕ, ltb, not, is_empty, length, ◌||◌, Text, codes, text_eq, show_nat, if◌then◌else◌, Option, none,
  some, List, [], ◌∷◌, ◌++◌, Result, ok, err, map_err, join,
}
use roos.Base.Action.{Action}
use roos.Core.Config
use roos.Core.Config.{Host, RoosConfig, ConfigError, from_file}
use roos.Core.Error
use roos.Core.Error.{AgentError}
use roos.Core.Memory.{Memory}
use roos.Core.Provider
use roos.Core.Provider.{CompletionConfig, LlmProvider}
use roos.Core.Types
use roos.Core.Types.{Uuid, AgentInput, AgentOutput}
use roos.MemoryStore.InMemory
use roos.MemoryStore.InMemory.{InMemoryStore, in_memory}
use roos.Orchestrator.Calls
use roos.Orchestrator.Calls.{Platform, ReasoningLoop}
use roos.Orchestrator.Loop
use roos.Providers.Http.{Http}
use roos.Providers.Anthropic
use roos.Providers.Anthropic.{anthropic_provider}
use roos.Providers.OpenAi
use roos.Providers.OpenAi.{openai_provider}

-- The world outside and the store that the command makes.
pub record Session (W : Type 0) : Type 0 where
  pub outside : W
  pub store : InMemoryStore

module _ {W E A : Type 0} where
  abbrev pub on_outside : Action W E A → Action (Session W) E A
  on_outside m s = let (r, w) = m s.outside in (r, record s { outside = w })

  abbrev pub on_store : Action InMemoryStore E A → Action (Session W) E A
  on_store m s = let (r, t) = m s.store in (r, record s { store = t })

abbrev pub session_provider : {W J : Type 0} → LlmProvider W J → LlmProvider (Session W) J
session_provider provider = record {
  complete = λ messages config. on_outside (provider.complete messages config);
}

abbrev pub session_memory : {W : Type 0} → Memory (Session W)
session_memory = record {
  store = λ h. on_store (in_memory.store h);
  load = λ id. on_store (in_memory.load id);
  append = λ id m. on_store (in_memory.append id m);
  clear = λ id. on_store (in_memory.clear id);
}

-- `reqwest` and `serde_json` as the two providers use them.
pub record Net (W H J : Type 0) : Type 0 where
  pub anthropic : Http W H (Anthropic.ApiRequest J) (Anthropic.ApiResponse J)
  pub openai : Http W H (OpenAi.ApiRequest J) OpenAi.ApiResponse
  pub from_str : Text → Result Text J
  pub null : J

abbrev pub unwrap_or_empty : Option Text → Text
unwrap_or_empty none = []
unwrap_or_empty (some t) = t

unfoldable pub failed_to_load : Text → ConfigError → Text
unfolding codes join Config.display
failed_to_load config_path e =
    join [] (codes "Failed to load '" ∷ config_path ∷ codes "': " ∷ Config.display e ∷ [])

unfoldable pub unknown_provider : Text → Text
unfolding codes
unknown_provider other =
    codes "Unknown provider type '" ++ (other ++ codes "'. Supported: anthropic, openai")

unfoldable pub run_failed : AgentError → Text
unfolding codes Error.display
run_failed e = codes "Agent run failed: " ++ Error.display e

-- The line that follows the output, behind an empty one.
unfoldable pub statistics : ℕ → ℕ → ℕ → Text
unfolding codes join show_nat
statistics steps tools tokens = join [] (
    codes "[steps: "
    ∷ show_nat steps
    ∷ codes ", tools: "
    ∷ show_nat tools
    ∷ codes ", tokens: "
    ∷ show_nat tokens
    ∷ codes "]"
    ∷ [])

abbrev pub printed : {J T : Type 0} → AgentOutput J T → List Text
printed output =
    if ltb 0 output.steps_taken || not (is_empty output.tools_called)
    then output.content
      ∷ []
      ∷ statistics output.steps_taken (length output.tools_called) output.total_tokens.total
      ∷ []
    else output.content ∷ []

module _ {J : Type 0} where
  abbrev pub described : Text → CompletionConfig J → CompletionConfig J
  described description config =
      if is_empty description then config else record config { system = some description }

  unfoldable pub completion_config : RoosConfig → CompletionConfig J
  unfolding Provider.new
  completion_config cfg =
      described cfg.agent.description
        (record (Provider.new cfg.provider.model) { max_tokens = cfg.provider.max_tokens })

module _ {W H J T C : Type 0} (net : Net W H J) (env : Platform (Session W) J T C) where
  -- The `match cfg.provider.provider_type.as_str()`.
  unfoldable pub select_provider : RoosConfig → Option (LlmProvider W J)
  unfolding codes text_eq
  select_provider cfg =
      let api_key = unwrap_or_empty cfg.provider.api_key in
      if text_eq cfg.provider.provider_type (codes "anthropic")
      then some (anthropic_provider net.anthropic api_key)
      else if text_eq cfg.provider.provider_type (codes "openai")
      then some (openai_provider net.openai net.from_str net.null api_key)
      else none

  unfoldable pub agent_loop : LlmProvider W J → ReasoningLoop (Session W) J
  unfolding Calls.new
  agent_loop provider = Calls.new (session_provider provider) [] session_memory

  abbrev pub reported :
      Option (Result AgentError (AgentOutput J T) × Session W)
      → Option (Result Text (List Text) × W)
  reported none = none
  reported (some (ok output, s)) = some (ok (printed output), s.outside)
  reported (some (err e, s)) = some (err (run_failed e), s.outside)

  abbrev pub run_with :
      Option (LlmProvider W J) → RoosConfig → Text → Uuid → W → Option (Result Text (List Text) × W)
  run_with none cfg input_text id w = some (err (unknown_provider cfg.provider.provider_type), w)
  run_with (some provider) cfg input_text id w = reported (
      Loop.run env (agent_loop provider) (Types.new input_text id) (completion_config cfg)
        (record { outside = w; store = InMemory.new }))

  abbrev pub configured :
      Text
      → Text
      → Uuid
      → W
      → Option (Result ConfigError RoosConfig)
      → Option (Result Text (List Text) × W)
  configured config_path input_text id w none = none
  configured config_path input_text id w (some (err e)) =
      some (err (failed_to_load config_path e), w)
  configured config_path input_text id w (some (ok cfg)) =
      run_with (select_provider cfg) cfg input_text id w

  -- `id` is the `Uuid` of the run. `none` is a loop that did not end.
  unfoldable pub run : Host → Text → Text → Uuid → W → Option (Result Text (List Text) × W)
  unfolding from_file
  run host config_path input_text id w =
      configured config_path input_text id w (from_file host config_path)
