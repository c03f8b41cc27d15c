-- ===== src/Tools/Http.antt =====
-- crates/roos-tools/src/http.rs: the requests of the tools. `reqwest` is the parameter `client`, `R`
-- a response of it.
use roos.Base.{Text, codes, Result}
use roos.Base.Action.{Action, ◌>>=◌}
use roos.Core.Tool.{Tool, ToolError}
use roos.Tools.Input.{on_input, attempt}

pub record Client (W R : Type 0) : Type 0 where
  pub get : Text → Action W Text R
  pub post : Text → Text → Action W Text R
  pub text : R → Action W Text Text

pub record HttpGetInput : Type 0 where
  pub url : Text

pub record HttpPostInput : Type 0 where
  pub url : Text
  pub body : Text

unfoldable pub http_get_name : Text
unfolding codes
http_get_name = codes "http_get"

unfoldable pub http_post_name : Text
unfolding codes
http_post_name = codes "http_post"

module _ {W R J : Type 0} (client : Client W R) where
  unfoldable pub http_get : (J → Result Text HttpGetInput) → J → Action W ToolError Text
  unfolding http_get_name
  http_get from_value input = on_input http_get_name (from_value input) λ inp. do
    response ← attempt http_get_name (client.get inp.url)
    attempt http_get_name (client.text response)

  unfoldable pub http_post : (J → Result Text HttpPostInput) → J → Action W ToolError Text
  unfolding http_post_name
  http_post from_value input = on_input http_post_name (from_value input) λ inp. do
    response ← attempt http_post_name (client.post inp.url inp.body)
    attempt http_post_name (client.text response)

-- The tools, with the schemas that `schemars` derives.
module _ {W R J : Type 0} (client : Client W R) where
  unfoldable pub http_get_tool : J → (J → Result Text HttpGetInput) → Tool W J
  unfolding codes http_get http_get_name
  http_get_tool schema from_value = record {
    name = http_get_name;
    description = codes "Perform an HTTP GET request and return the response body as text.";
    schema = schema;
    execute = http_get client from_value;
  }

  unfoldable pub http_post_tool : J → (J → Result Text HttpPostInput) → Tool W J
  unfolding codes http_post http_post_name
  http_post_tool schema from_value = record {
    name = http_post_name;
    description =
        codes "Perform an HTTP POST request with a text body and return the response body.";
    schema = schema;
    execute = http_post client from_value;
  }
