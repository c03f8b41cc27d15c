-- ===== src/Providers/OpenAi.antt =====
-- crates/roos-providers/src/openai.rs, groq.rs and qwen.rs: one chat completion. `reqwest` is the parameter `http`, and
-- `serde_json::from_str` with `Value::Null` the parameters `from_str` and `null`.
pub mod Replies
use roos.Base.{
  ℕ, ◌+◌, ◌%◌, ◌^◌, Text, codes, text_eq, if◌then◌else◌, Option, none, some, List, [], ◌∷◌, map,
  Result, ok, err,
}
use roos.Base.Action.{Action}
use roos.Core.Types.{TokenUsage, no_usage}
use roos.Core.Provider.{
  Message, ToolSchema, ToolCall, StopReason, end_turn, tool_use, max_tokens, stop_sequence,
  CompletionConfig, CompletionResponse, ProviderError, LlmProvider,
}
use roos.Providers.Http.{Http, bearer_auth, max_tokens_or, exchange}

pub record ApiMessage : Type 0 where
  pub role : Text
  pub content : Text

pub record ApiFunction (J : Type 0) : Type 0 where
  pub name : Text
  pub description : Text
  pub parameters : J

pub record ApiTool (J : Type 0) : Type 0 where
  pub kind : Text
  pub function : ApiFunction J

pub record ApiRequest (J : Type 0) : Type 0 where
  pub model : Text
  pub max_tokens : ℕ
  pub messages : List ApiMessage
  pub tools : List (ApiTool J)
  pub system : Option Text

pub record ApiToolCallFunction : Type 0 where
  pub name : Text
  pub arguments : Text

pub record ApiToolCall : Type 0 where
  pub id : Text
  pub function : ApiToolCallFunction

pub record ApiResponseMessage : Type 0 where
  pub content : Option Text
  pub tool_calls : List ApiToolCall

pub record ApiChoice : Type 0 where
  pub message : ApiResponseMessage
  pub finish_reason : Text

pub record ApiUsage : Type 0 where
  pub prompt_tokens : ℕ
  pub completion_tokens : ℕ

pub record ApiResponse : Type 0 where
  pub choices : List ApiChoice
  pub model : Text
  pub usage : ApiUsage

module _ {J : Type 0} where
  unfoldable pub tool_schema_to_api : ToolSchema J → ApiTool J
  unfolding codes
  tool_schema_to_api t = record {
    kind = codes "function";
    function = record { name = t.name; description = t.description; parameters = t.parameters };
  }

  unfoldable pub request_body : List Message → CompletionConfig J → ApiRequest J
  unfolding tool_schema_to_api
  request_body messages config = record {
    model = config.model;
    max_tokens = max_tokens_or config.max_tokens;
    messages = map (λ m. record { role = m.role; content = m.content }) messages;
    tools = map tool_schema_to_api config.tools;
    system = config.system;
  }

-- The `match choice.finish_reason.as_str()`.
unfoldable pub stop_reason : Text → StopReason
unfolding codes text_eq
stop_reason reason =
    if text_eq reason (codes "tool_calls")
    then tool_use
    else if text_eq reason (codes "length")
    then max_tokens
    else if text_eq reason (codes "content_filter")
    then stop_sequence
    else end_turn

-- The sum of two `u32` wraps, as in a release build.
unfoldable pub usage : ApiUsage → TokenUsage
usage u = record {
  input = u.prompt_tokens;
  output = u.completion_tokens;
  total = (u.prompt_tokens + u.completion_tokens) % 2 ^ 32;
}

module _ {J : Type 0} (from_str : Text → Result Text J) (null : J) where
  abbrev pub or_null : Result Text J → J
  or_null (ok input) = input
  or_null (err _) = null

  unfoldable pub to_call : ApiToolCall → ToolCall J
  to_call tc = record {
    id = tc.id;
    name = tc.function.name;
    input = or_null (from_str tc.function.arguments);
  }

  abbrev pub first_choice : List ApiChoice → ApiResponse → CompletionResponse J
  first_choice [] api = record {
    content = none;
    tool_calls = [];
    usage = no_usage;
    model = api.model;
    stop_reason = end_turn;
  }
  first_choice (choice ∷ _) api = record {
    content = choice.message.content;
    tool_calls = map to_call choice.message.tool_calls;
    usage = usage api.usage;
    model = api.model;
    stop_reason = stop_reason choice.finish_reason;
  }

  unfoldable pub map_response : ApiResponse → CompletionResponse J
  map_response api = first_choice api.choices api

module _ {W H J : Type 0} (http : Http W H (ApiRequest J) ApiResponse)
    (from_str : Text → Result Text J) (null : J) where
  -- Groq and Qwen call it with their own addresses.
  unfoldable pub complete_compat :
      Text
      → Text
      → List Message
      → CompletionConfig J
      → Action W ProviderError (CompletionResponse J)
  unfolding request_body exchange
  complete_compat api_key url messages config =
      exchange http (map_response from_str null) (bearer_auth api_key) url
        (request_body messages config)

  -- The providers, over their keys.
  unfoldable pub openai_provider : Text → LlmProvider W J
  unfolding codes
  openai_provider api_key = record {
    complete = complete_compat api_key (codes "https://api.openai.com/v1/chat/completions");
  }

  unfoldable pub groq_provider : Text → LlmProvider W J
  unfolding codes
  groq_provider api_key = record {
    complete = complete_compat api_key (codes "https://api.groq.com/openai/v1/chat/completions");
  }

  unfoldable pub qwen_provider : Text → LlmProvider W J
  unfolding codes
  qwen_provider api_key = record {
    complete =
        complete_compat api_key
          (codes "https://dashscope.aliyuncs.com/compatible-mode/v1/chat/completions");
  }
