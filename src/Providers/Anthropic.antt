-- ===== src/Providers/Anthropic.antt =====
-- crates/roos-providers/src/anthropic.rs.
pub mod Blocks
use roos.Base.{
  ℕ, ◌+◌, ◌%◌, ◌^◌, Text, codes, text_eq, join, is_empty, if◌then◌else◌, Option, none, some, List,
  [], ◌∷◌, ◌++◌, map,
}
use roos.Base.Action.{Action}
use roos.Core.Types.{TokenUsage}
use roos.Core.Provider.{
  Message, ToolSchema, ToolCall, StopReason, end_turn, tool_use, max_tokens, stop_sequence,
  CompletionConfig, CompletionResponse, ProviderError, LlmProvider,
}
use roos.Providers.Http.{Http, api_key_headers, max_tokens_or, exchange}

pub record ApiMessage : Type 0 where
  pub role : Text
  pub content : Text

pub record ApiTool (J : Type 0) : Type 0 where
  pub name : Text
  pub description : Text
  pub input_schema : J

pub record ApiRequest (J : Type 0) : Type 0 where
  pub model : Text
  pub max_tokens : ℕ
  pub messages : List ApiMessage
  pub tools : List (ApiTool J)
  pub system : Option Text

pub data ApiContent (J : Type 0) : Type 0 where
  text_block : Text → ApiContent J
  tool_use_block : Text → Text → J → ApiContent J

pub record ApiUsage : Type 0 where
  pub input_tokens : ℕ
  pub output_tokens : ℕ

pub record ApiResponse (J : Type 0) : Type 0 where
  pub content : List (ApiContent J)
  pub model : Text
  pub stop_reason : Text
  pub usage : ApiUsage

module _ {J : Type 0} where
  unfoldable pub tool_schema_to_api : ToolSchema J → ApiTool J
  tool_schema_to_api t = record {
    name = t.name;
    description = t.description;
    input_schema = t.parameters;
  }

  unfoldable pub request_body : List Message → CompletionConfig J → ApiRequest J
  unfolding tool_schema_to_api
  request_body messages config = record {
    model = config.model;
    max_tokens = max_tokens_or config.max_tokens;
    messages = map (λ m. record { role = m.role; content = m.content }) messages;
    tools = map tool_schema_to_api config.tools;
    system = config.system;
  }

  -- One round of `for block in api.content`, and the loop.
  abbrev pub sorted : ApiContent J → List Text × List (ToolCall J) → List Text × List (ToolCall J)
  sorted (text_block text) (text_parts, tool_calls) = (text_parts ++ text ∷ [], tool_calls)
  sorted (tool_use_block id name input) (text_parts, tool_calls) =
      (text_parts, tool_calls ++ record { id = id; name = name; input = input } ∷ [])

  unfoldable pub sort_blocks :
      List (ApiContent J) → List Text × List (ToolCall J) → List Text × List (ToolCall J)
  sort_blocks [] acc = acc
  sort_blocks (block ∷ blocks) acc = sort_blocks blocks (sorted block acc)

unfoldable pub stop_reason : Text → StopReason
unfolding codes text_eq
stop_reason reason =
    if text_eq reason (codes "tool_use")
    then tool_use
    else if text_eq reason (codes "max_tokens")
    then max_tokens
    else if text_eq reason (codes "stop_sequence")
    then stop_sequence
    else end_turn

-- The sum of two `u32` wraps, as in a release build.
unfoldable pub usage : ApiUsage → TokenUsage
usage u = record {
  input = u.input_tokens;
  output = u.output_tokens;
  total = (u.input_tokens + u.output_tokens) % 2 ^ 32;
}

abbrev pub text_content : List Text → Option Text
unfolding join
text_content text_parts = if is_empty text_parts then none else some (join [] text_parts)

unfoldable pub map_response : {J : Type 0} → ApiResponse J → CompletionResponse J
unfolding sort_blocks
map_response api =
    let (text_parts, tool_calls) = sort_blocks api.content ([], []) in
    record {
      content = text_content text_parts;
      tool_calls = tool_calls;
      usage = usage api.usage;
      model = api.model;
      stop_reason = stop_reason api.stop_reason;
    }

module _ {W H J : Type 0} (http : Http W H (ApiRequest J) (ApiResponse J)) (api_key : Text) where
  unfoldable pub complete :
      List Message → CompletionConfig J → Action W ProviderError (CompletionResponse J)
  unfolding request_body map_response exchange codes
  complete messages config =
      exchange http map_response (api_key_headers api_key (codes "2023-06-01"))
        (codes "https://api.anthropic.com/v1/messages") (request_body messages config)

  abbrev pub anthropic_provider : LlmProvider W J
  anthropic_provider = record { complete = complete }
