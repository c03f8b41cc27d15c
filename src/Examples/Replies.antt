-- ===== src/Examples/Replies.antt =====
-- Answers of servers, over a connection that counts the requests.
use roos.Base.{ℕ, suc, Text, codes, none, [], ◌∷◌, ok}
use roos.Providers.Http.{Http, exchange, bearer_auth}
use roos.Providers.Http.Statuses.{Ending, exchange-Ending}
use roos.Providers.Anthropic
use roos.Providers.Anthropic.{ApiContent, text_block, tool_use_block}

abbrev answer : Anthropic.ApiResponse Text
answer = record {
  content =
      text_block (codes "a")
      ∷ tool_use_block (codes "1") (codes "echo") (codes "{}")
      ∷ text_block (codes "b")
      ∷ [];
  model = codes "m";
  stop_reason = codes "tool_use";
  usage = record { input_tokens = 10; output_tokens = 5 };
}

abbrev http : Http ℕ ℕ Text (Anthropic.ApiResponse Text)
http = record {
  post = λ auth url body w. (ok 429, suc w);
  status = λ h. h;
  json = λ h w. (ok answer, w);
  error_message = λ h w. (none, w);
}

exchange-Ending_example :
    let (r, w) =
      exchange http Anthropic.map_response (bearer_auth (codes "k")) (codes "u") (codes "{}") 0 in
    Ending http Anthropic.map_response (bearer_auth (codes "k")) (codes "u") (codes "{}") 0 r w
exchange-Ending_example =
    exchange-Ending http Anthropic.map_response (bearer_auth (codes "k")) (codes "u") (codes "{}") 0
