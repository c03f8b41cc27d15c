-- ===== src/Macros.antt =====
-- crates/roos-macros/src/lib.rs: the attribute `#[tool(...)]`. The parsers of `syn` are parameters: the
-- arguments and the function come parsed, or with the text of the parser's error. A compile error is
-- its text.
pub mod Expansion
use roos.Base.{
  ℕ, zero, suc, ◌+◌, ltb, nat_eq, text_eq, is_empty, if◌then◌else◌, Text, codes, take, drop, map,
  join, keep_if, not, Option, none, some, List, [], ◌∷◌, ◌++◌, Result, ok, err, ok_or, ◌>>=◌,
}
use roos.Base.Action.{Action}
use roos.Core.Tool.{Tool, ToolError}
use roos.Tools.Input.{on_input}

-- `path.get_ident()`, and the value if it is a string literal.
pub record MetaNameValue : Type 0 where
  pub path : Option Text
  pub value : Option Text

-- `Y` is a type of the source: a typed parameter with a plain identifier or with another pattern, or
-- `self`.
pub data FnArg (Y : Type 0) : Type 0 where
  ident : Y → FnArg Y
  pattern_arg : Y → FnArg Y
  receiver : FnArg Y

pub record ItemFn (Y : Type 0) : Type 0 where
  pub name : Text
  pub inputs : List (FnArg Y)

abbrev pub unwrap_or_default : Option Text → Text
unwrap_or_default none = []
unwrap_or_default (some t) = t

abbrev pub quoted : Text → Text
quoted t = 96 ∷ (t ++ (96 ∷ []))

unfoldable pub unknown_key : Text → Text
unfolding codes join
unknown_key other = join [] (
    codes "unknown key "
    ∷ quoted other
    ∷ codes "; expected "
    ∷ quoted (codes "name")
    ∷ codes " or "
    ∷ quoted (codes "description")
    ∷ [])

unfoldable pub is_required : Text → Text
unfolding codes
is_required key = quoted key ++ codes " is required in #[tool(...)]"

-- A literal replaces the value before it; another expression leaves it.
abbrev pub replaced : Option Text → Option Text → Option Text
replaced none old = old
replaced (some t) old = some t

-- The `for` loop, with `tool_name` and `tool_desc`.
unfoldable pub scan :
    List MetaNameValue → Option Text → Option Text → Result Text (Option Text × Option Text)
unfolding codes text_eq
scan [] tool_name tool_desc = ok (tool_name, tool_desc)
scan (kv ∷ args) tool_name tool_desc =
    let key = unwrap_or_default kv.path in
    let at_name = scan args (replaced kv.value tool_name) tool_desc in
    let at_desc = scan args tool_name (replaced kv.value tool_desc) in
    if text_eq key (codes "name")
    then at_name
    else if text_eq key (codes "description")
    then at_desc
    else err (unknown_key key)

module _ {Y : Type 0} where
  unfoldable pub input_ty : List (FnArg Y) → Result Text Y
  unfolding codes
  input_ty (ident y ∷ rest) = ok y
  input_ty (pattern_arg y ∷ rest) =
      err (codes "#[tool] parameter must be a plain identifier pattern")
  input_ty (receiver ∷ rest) = err (codes "#[tool] function must have exactly one typed parameter")
  input_ty [] = err (codes "#[tool] function must have exactly one typed parameter")

-- `split('_')`: the piece before the first underscore, and the pieces behind it.
unfoldable pub pieces : Text → Text × List Text
pieces [] = ([], [])
pieces (c ∷ s) =
    let (piece, rest) = pieces s in if nat_eq c 95 then ([], piece ∷ rest) else (c ∷ piece, rest)

-- The bytes of the character that begins with the byte.
abbrev pub char_width : ℕ → ℕ
char_width b = if ltb b 128 then 1 else if ltb b 224 then 2 else if ltb b 240 then 3 else 4

-- `char::to_uppercase` is the parameter of that name.
abbrev pub capitalized : (Text → Text) → Text → Text
capitalized to_uppercase [] = []
capitalized to_uppercase (b ∷ s) =
    to_uppercase (take (char_width b) (b ∷ s)) ++ drop (char_width b) (b ∷ s)

unfoldable pub struct_name : (Text → Text) → Text → Text
unfolding codes join pieces
struct_name to_uppercase raw =
    let (piece, rest) = pieces raw in
    join [] (map (capitalized to_uppercase) (keep_if (λ s. not (is_empty s)) (piece ∷ rest)))
    ++ codes "Tool"

-- What is generated beside the function.
pub record Generated (Y : Type 0) : Type 0 where
  pub struct : Text
  pub name_lit : Text
  pub desc_lit : Text
  pub func : Text
  pub input_type : Y

module _ {Y : Type 0} (to_uppercase : Text → Text) where
  abbrev pub generated : Text → Text → ItemFn Y → Result Text (Generated Y)
  generated tool_name tool_desc func = do
    y ← input_ty func.inputs
    ok (record {
      struct = struct_name to_uppercase func.name;
      name_lit = tool_name;
      desc_lit = tool_desc;
      func = func.name;
      input_type = y;
    })

  unfoldable pub described :
      Result Text (ItemFn Y) → Option Text × Option Text → Result Text (Generated Y)
  unfolding codes
  described input (tool_name, tool_desc) = do
    name ← ok_or tool_name (is_required (codes "name"))
    desc ← ok_or tool_desc (is_required (codes "description"))
    func ← input
    generated name desc func

  -- The macro, on what the two parsers give.
  unfoldable pub tool :
      Result Text (List MetaNameValue) → Result Text (ItemFn Y) → Result Text (Generated Y)
  unfolding scan described
  tool args input = do kvs ← args; found ← scan kvs none none; described input found

-- The `Tool` that the generated code implements; the function is `call`.
abbrev pub generated_tool :
    {W J A Y : Type 0}
    → Generated Y
    → J
    → (J → Result Text A)
    → (A → Action W ToolError Text)
    → Tool W J
generated_tool g schema from_value call = record {
  name = g.name_lit;
  description = g.desc_lit;
  schema = schema;
  execute = λ input. on_input g.name_lit (from_value input) call;
}
