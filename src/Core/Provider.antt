-- ===== src/Core/Provider.antt =====
-- crates/roos-core/src/provider.rs: messages, tool calls, completions and the `LLMProvider` trait.
use roos.Base.{ℕ, Text, codes, show_nat, Option, none, some, List, [], ◌∷◌, ◌++◌}
use roos.Base.Action.{Action}
use roos.Core.Types.{TokenUsage}

pub record Message : Type 0 where
  pub role : Text
  pub content : Text

unfoldable pub user : Text → Message
user content = record { role = codes "user"; content = content }

unfoldable pub assistant : Text → Message
assistant content = record { role = codes "assistant"; content = content }

unfoldable pub system : Text → Message
system content = record { role = codes "system"; content = content }

pub record ToolSchema (J : Type 0) : Type 0 where
  pub name : Text
  pub description : Text
  pub parameters : J

pub record ToolCall (J : Type 0) : Type 0 where
  pub id : Text
  pub name : Text
  pub input : J

pub data StopReason : Type 0 where
  end_turn tool_use max_tokens stop_sequence : StopReason

-- `temperature` is an `f32`, kept as its 32 bits: no code computes with it.
pub record CompletionConfig (J : Type 0) : Type 0 where
  pub model : Text
  pub max_tokens : Option ℕ
  pub temperature : Option ℕ
  pub tools : List (ToolSchema J)
  pub system : Option Text

unfoldable pub new : {J : Type 0} → Text → CompletionConfig J
new model = record {
  model = model;
  max_tokens = none;
  temperature = none;
  tools = [];
  system = none;
}

pub record CompletionResponse (J : Type 0) : Type 0 where
  pub content : Option Text
  pub tool_calls : List (ToolCall J)
  pub usage : TokenUsage
  pub model : Text
  pub stop_reason : StopReason

pub data ProviderError : Type 0 where
  unauthorized : Text → ProviderError
  rate_limited : Option ℕ → ProviderError
  server_error : ℕ → Text → ProviderError
  network_error : Text → ProviderError
  invalid_response : Text → ProviderError

-- The three bytes of the dash in two of the messages.
abbrev pub em_dash : Text
em_dash = 226 ∷ 128 ∷ 148 ∷ []

unfoldable pub display : ProviderError → Text
unfolding codes show_nat
display (unauthorized message) = codes "unauthorized: " ++ message
display (rate_limited (some s)) =
    codes "rate limited " ++ (em_dash ++ (codes " retry after " ++ (show_nat s ++ codes "s")))
display (rate_limited none) = codes "rate limited"
display (server_error status message) =
    codes "provider server error " ++ (show_nat status ++ (codes ": " ++ message))
display (network_error source) = codes "network error: " ++ source
display (invalid_response reason) = codes "invalid provider response: " ++ reason

-- `Error::source`.
unfoldable pub source : ProviderError → Option Text
source (network_error cause) = some cause
source (unauthorized message) = none
source (rate_limited retry_after_secs) = none
source (server_error status message) = none
source (invalid_response reason) = none

pub record LlmProvider (W J : Type 0) : Type 0 where
  pub complete : List Message → CompletionConfig J → Action W ProviderError (CompletionResponse J)
