-- ===== src/Providers/OpenAi/Replies.antt =====
-- What a completion of crates/roos-providers/src/openai.rs makes of the server's answer.
use roos.Base.{
  ◌+◌, ◌/◌, ◌^◌, ◌<◌, ◌≤◌, true, ◌≡◌, ap, ◌∙◌, ◌↔◌, arith, Text, none, List, Result, ok, err, is_ok,
}
use roos.Core.Types.{IsBalanced}
use roos.Core.Provider.{Message, CompletionConfig, rate_limited}
use roos.Providers.Http.{Http, bearer_auth, parsed}
use roos.Providers.Http.Statuses.{
  on_status-success, on_status-limited, on_status-is_ok, exchange-sent,
}
use roos.Providers.OpenAi.{
  ApiRequest, ApiResponse, ApiUsage, usage, map_response, request_body, complete_compat,
}

-- The token counts of an answer are balanced if their sum is a `u32`. If the sum is 2^32 or more, the
-- total is below the number of prompt tokens.
usage-IsBalanced :
    (u : ApiUsage)
    → u.prompt_tokens < 2 ^ 32
    → u.completion_tokens < 2 ^ 32
    → (u.prompt_tokens + u.completion_tokens < 2 ^ 32 → IsBalanced (usage u))
      × (2 ^ 32 ≤ u.prompt_tokens + u.completion_tokens → (usage u).total < u.prompt_tokens)
unfolding usage
usage-IsBalanced u p c = (λ fits. omega (arith, fits), λ over. omega (arith, over))

module _ {W H J : Type 0} (http : Http W H (ApiRequest J) ApiResponse)
    (from_str : Text → Result Text J) (null : J) where
  -- A completion whose request is answered succeeds exactly if the status is from 200 to 299 and the
  -- body parses, and then it is the mapped body. Status 429 is `RateLimited`, and the body is not
  -- read.
  complete_compat-is_ok :
      (key url : Text) (messages : List Message) (config : CompletionConfig J) (w v : W) (resp : H)
      → http.post (bearer_auth key) url (request_body messages config) w ≡ (ok resp, v)
      → let r = complete_compat http from_str null key url messages config w in
        ((is_ok r.0 ≡ true) ↔ ((http.status resp / 100 ≡ 2) × (is_ok (http.json resp v).0 ≡ true)))
        × ((api : ApiResponse) (u : W)
            → http.status resp / 100 ≡ 2
            → http.json resp v ≡ (ok api, u)
            → r ≡ (ok (map_response from_str null api), u))
        × (http.status resp ≡ 429 → r ≡ (err (rate_limited none), v))
  unfolding complete_compat
  complete_compat-is_ok key url messages config w v resp sent =
      rw
        (exchange-sent http (map_response from_str null) (bearer_auth key) url
          (request_body messages config) w v resp sent)
        (
          on_status-is_ok http (map_response from_str null) (http.status resp) resp v,
          λ api u two read.
              on_status-success http (map_response from_str null) (http.status resp) resp v two
              ∙ ap (parsed http (map_response from_str null)) read,
          on_status-limited http (map_response from_str null) (http.status resp) resp v,
        )
