-- ===== src/Providers/Cohere.antt =====
-- crates/roos-providers/src/cohere.rs.
pub mod Contents
use roos.Base.{
  ℕ, ◌+◌, ◌%◌, ◌^◌, Text, codes, text_eq, join, is_empty, if◌then◌else◌, Option, none, some, List,
  [], ◌∷◌, ◌++◌, map,
}
use roos.Base.Action.{Action}
use roos.Core.Types.{TokenUsage}
use roos.Core.Provider.{
  Message, ToolSchema, ToolCall, StopReason, end_turn, tool_use, max_tokens, CompletionConfig,
  CompletionResponse, ProviderError, LlmProvider,
}
use roos.Providers.Http.{Http, bearer_auth, max_tokens_or, exchange}

pub record ApiMessage : Type 0 where
  pub role : Text
  pub content : Text

pub record ApiToolDef (J : Type 0) : Type 0 where
  pub name : Text
  pub description : Text
  pub parameters : J

pub record ApiTool (J : Type 0) : Type 0 where
  pub kind : Text
  pub function : ApiToolDef J

pub record ApiRequest (J : Type 0) : Type 0 where
  pub model : Text
  pub messages : List ApiMessage
  pub max_tokens : Option ℕ
  pub tools : List (ApiTool J)

pub record ApiContentBlock : Type 0 where
  pub text : Text

pub record ApiToolCallFn (J : Type 0) : Type 0 where
  pub name : Text
  pub arguments : J

pub record ApiToolCall (J : Type 0) : Type 0 where
  pub id : Text
  pub function : ApiToolCallFn J

pub record ApiResponseMessage (J : Type 0) : Type 0 where
  pub content : List ApiContentBlock
  pub tool_calls : List (ApiToolCall J)

pub record ApiTokens : Type 0 where
  pub input_tokens : ℕ
  pub output_tokens : ℕ

pub record ApiUsage : Type 0 where
  pub tokens : ApiTokens

pub record ApiResponse (J : Type 0) : Type 0 where
  pub message : ApiResponseMessage J
  pub finish_reason : Text
  pub usage : ApiUsage

abbrev pub system_message : Option Text → List ApiMessage
unfolding codes
system_message none = []
system_message (some sys) = record { role = codes "system"; content = sys } ∷ []

module _ {J : Type 0} where
  unfoldable pub tool_to_api : ToolSchema J → ApiTool J
  unfolding codes
  tool_to_api t = record {
    kind = codes "function";
    function = record { name = t.name; description = t.description; parameters = t.parameters };
  }

  -- The system prompt is the first message.
  unfoldable pub request_body : List Message → CompletionConfig J → ApiRequest J
  unfolding tool_to_api system_message
  request_body messages config = record {
    model = config.model;
    messages =
        system_message config.system
        ++ map (λ m. record { role = m.role; content = m.content }) messages;
    max_tokens = some (max_tokens_or config.max_tokens);
    tools = map tool_to_api config.tools;
  }

unfoldable pub stop_reason : Text → StopReason
unfolding codes text_eq
stop_reason reason =
    if text_eq reason (codes "TOOL_CALL")
    then tool_use
    else if text_eq reason (codes "MAX_TOKENS")
    then max_tokens
    else end_turn

-- The sum of two `u32` wraps, as in a release build.
unfoldable pub usage : ApiTokens → TokenUsage
usage t = record {
  input = t.input_tokens;
  output = t.output_tokens;
  total = (t.input_tokens + t.output_tokens) % 2 ^ 32;
}

abbrev pub non_empty : Text → Option Text
non_empty content = if is_empty content then none else some content

unfoldable pub map_response : {J : Type 0} → ApiResponse J → CompletionResponse J
unfolding join
map_response api = record {
  content = non_empty (join [] (map (λ b. b.text) api.message.content));
  tool_calls =
      map (λ tc. record { id = tc.id; name = tc.function.name; input = tc.function.arguments })
        api.message.tool_calls;
  usage = usage api.usage.tokens;
  model = [];
  stop_reason = stop_reason api.finish_reason;
}

module _ {W H J : Type 0} (http : Http W H (ApiRequest J) (ApiResponse J)) (api_key : Text) where
  unfoldable pub complete :
      List Message → CompletionConfig J → Action W ProviderError (CompletionResponse J)
  unfolding request_body map_response exchange codes
  complete messages config =
      exchange http map_response (bearer_auth api_key) (codes "https://api.cohere.com/v2/chat")
        (request_body messages config)

  abbrev pub cohere_provider : LlmProvider W J
  cohere_provider = record { complete = complete }
