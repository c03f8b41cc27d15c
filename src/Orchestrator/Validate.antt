-- ===== src/Orchestrator/Validate.antt =====
-- crates/roos-orchestrator/src/validate.rs. The `jsonschema` crate is the parameter `schemas`.
use roos.Base.{
  Text, codes, join, Result, ok, err, map_err, ◌>>=◌, List, [], ◌∷◌, ◌++◌, is_empty, if◌then◌else◌,
}

-- `JSONSchema::compile`, and `validate` with the displayed violations.
pub record JsonSchema (J C : Type 0) : Type 0 where
  pub compile : J → Result Text C
  pub validate : C → J → Result (List Text) (Unit {0})

pub record ValidationError : Type 0 where
  pub tool : Text
  pub violations : List Text

unfoldable pub display : ValidationError → Text
unfolding codes join
display e =
    codes "tool '"
    ++ (e.tool ++ (codes "' input validation failed: " ++ join (codes "; ") e.violations))

-- `.err().into_iter().flatten()`
abbrev pub reported : Result (List Text) (Unit {0}) → List Text
reported (ok _) = []
reported (err violations) = violations

module _ {J C : Type 0} (schemas : JsonSchema J C) where
  unfoldable pub validate_tool_input : Text → J → J → Result ValidationError (Unit {0})
  unfolding codes
  validate_tool_input tool_name schema input = do
    compiled ←
        map_err
          (λ e. record { tool = tool_name; violations = (codes "invalid schema: " ++ e) ∷ [] })
          (schemas.compile schema)
    let violations = reported (schemas.validate compiled input)
    if is_empty violations
        then ok tt
        else err (record { tool = tool_name; violations = violations })
