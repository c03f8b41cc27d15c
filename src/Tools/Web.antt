-- ===== src/Tools/Web.antt =====
-- crates/roos-tools/src/web.rs: the summary of a web search. `reqwest` is the parameter `search`,
-- which sends a `GET` with a query and reads the answer as JSON; `serde_json::Value` is `V`.
pub mod Summaries
use roos.Base.{
  Text, codes, is_empty, if◌then◌else◌, Option, none, some, List, [], ◌∷◌, Result, ok, err,
}
use roos.Base.Action.{Action, pure, ◌>>=◌}
use roos.Core.Tool.{Tool, ToolError}
use roos.Tools.Input.{on_input, attempt}

pub record SearchWebInput : Type 0 where
  pub query : Text

-- `Value::get`, `as_str` and `as_array`.
pub record Value (V : Type 0) : Type 0 where
  pub get : V → Text → Option V
  pub as_str : V → Option Text
  pub as_array : V → Option (List V)

unfoldable pub search_web_name : Text
unfolding codes
search_web_name = codes "search_web"

module _ {A B : Type 0} where
  abbrev pub and_then : Option A → (A → Option B) → Option B
  and_then none f = none
  and_then (some a) f = f a

abbrev pub first : {A : Type 0} → List A → Option A
first [] = none
first (a ∷ rest) = some a

-- `.filter(|s| !s.is_empty())`
abbrev pub non_empty : Option Text → Option Text
non_empty none = none
non_empty (some s) = if is_empty s then none else some s

abbrev pub or_else_option : {A : Type 0} → Option A → Option A → Option A
or_else_option none other = other
or_else_option (some a) other = some a

abbrev pub unwrap_or : {A : Type 0} → Option A → A → A
unwrap_or none a = a
unwrap_or (some b) a = b

module _ {V : Type 0} (value : Value V) where
  unfoldable pub abstract_text : V → Option Text
  unfolding codes
  abstract_text resp = non_empty (and_then (value.get resp (codes "AbstractText")) value.as_str)

  unfoldable pub related_topic : V → Option Text
  unfolding codes
  related_topic resp = and_then (value.get resp (codes "RelatedTopics")) λ t.
      and_then (value.as_array t)
        λ arr. and_then (first arr) λ item. and_then (value.get item (codes "Text")) value.as_str

  unfoldable pub summary : V → Text
  unfolding codes abstract_text related_topic
  summary resp =
      unwrap_or (or_else_option (abstract_text resp) (related_topic resp))
        (codes "No results found.")

-- The pairs of `.query(..)`.
unfoldable pub query_of : Text → List (Text × Text)
unfolding codes
query_of query =
    (codes "q", query) ∷ (codes "format", codes "json") ∷ (codes "no_html", codes "1") ∷ []

module _ {W V J R : Type 0} (value : Value V) (get : Text → List (Text × Text) → Action W Text R)
    (json : R → Action W Text V) where
  unfoldable pub search_web : (J → Result Text SearchWebInput) → J → Action W ToolError Text
  unfolding codes search_web_name summary query_of
  search_web from_value input = on_input search_web_name (from_value input) λ inp. do
    response ←
        attempt search_web_name (get (codes "https://api.duckduckgo.com/") (query_of inp.query))
    resp ← attempt search_web_name (json response)
    pure (summary value resp)

-- The tool, with the schema that `schemars` derives.
module _ {W V J R : Type 0} (value : Value V) (get : Text → List (Text × Text) → Action W Text R)
    (json : R → Action W Text V) where
  unfoldable pub search_web_tool : J → (J → Result Text SearchWebInput) → Tool W J
  unfolding codes search_web search_web_name
  search_web_tool schema from_value = record {
    name = search_web_name;
    description = codes "Search the web for a query and return a brief summary of the top result.";
    schema = schema;
    execute = search_web value get json from_value;
  }
