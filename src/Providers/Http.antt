-- ===== src/Providers/Http.antt =====
-- What the providers of crates/roos-providers/src share: the requests that they send through
-- `reqwest`, the parameter `http`, and how each tells the statuses of an answer apart. The code stands
-- in openai.rs, anthropic.rs and cohere.rs, once in each.
pub mod Statuses
pub mod Counts
use roos.Base.{ℕ, ◌/◌, Text, codes, nat_eq, if◌then◌else◌, Option, none, some, Result, ok, err}
use roos.Base.Action.{Action, map_throw, ◌>>=◌}
use roos.Core.Provider.{
  CompletionResponse, ProviderError, unauthorized, rate_limited, server_error, network_error,
  invalid_response,
}

-- `bearer_auth`, or Anthropic's two headers.
pub data Auth : Type 0 where
  bearer_auth : Text → Auth
  api_key_headers : Text → Text → Auth

-- `R` is a request body, `H` a response whose body is not yet read, `A` the body that is expected;
-- `error_message` reads it as an `ApiError`.
pub record Http (W H R A : Type 0) : Type 0 where
  pub post : Auth → Text → R → Action W Text H
  pub status : H → ℕ
  pub json : H → Action W Text A
  pub error_message : H → W → Option Text × W

abbrev pub default_max_tokens : ℕ
default_max_tokens = 4096

abbrev pub max_tokens_or : Option ℕ → ℕ
max_tokens_or none = default_max_tokens
max_tokens_or (some n) = n

abbrev pub unwrap_message : Option Text → Text
unfolding codes
unwrap_message none = codes "unknown error"
unwrap_message (some message) = message

module _ {W H R A : Type 0} (http : Http W H R A) where
  unfoldable pub extract_error : H → W → Text × W
  unfolding unwrap_message
  extract_error resp w =
      let (message, w') = http.error_message resp w in (unwrap_message message, w')

  module _ {J : Type 0} (map_response : A → CompletionResponse J) where
    -- The error with the message of the body.
    abbrev pub failed_with :
        (Text → ProviderError) → H → Action W ProviderError (CompletionResponse J)
    failed_with error resp w = let (msg, w') = extract_error resp w in (err (error msg), w')

    abbrev pub parsed : Result Text A × W → Result ProviderError (CompletionResponse J) × W
    parsed (ok api, w) = (ok (map_response api), w)
    parsed (err e, w) = (err (invalid_response e), w)

    -- What follows `resp.status()`.
    unfoldable pub on_status : ℕ → H → Action W ProviderError (CompletionResponse J)
    on_status status resp w =
        if nat_eq status 401
        then failed_with unauthorized resp w
        else if nat_eq status 429
        then (err (rate_limited none), w)
        else if nat_eq (status / 100) 5
        then failed_with (server_error status) resp w
        else if nat_eq (status / 100) 2
        then parsed (http.json resp w)
        else failed_with invalid_response resp w

    -- From `post(url)` on.
    unfoldable pub exchange : Auth → Text → R → Action W ProviderError (CompletionResponse J)
    unfolding on_status
    exchange auth url body = do
      resp ← map_throw network_error (http.post auth url body)
      on_status (http.status resp) resp
