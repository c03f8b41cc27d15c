-- ===== src/Tools/Shell.antt =====
-- crates/roos-tools/src/shell.rs. Reading the input is the parameter `from_value`, and running `sh -c`
-- the parameter `run`, with the lossy texts of its two streams.
pub mod Allowed
pub mod Guarded
use roos.Base.{
  ℕ, zero, suc, leb, nat_eq, text_eq, any, is_empty, Bool, true, false, ◌&&◌, ◌||◌, if◌then◌else◌,
  Text, codes, List, [], ◌∷◌, ◌++◌, Result, ok, err,
}
use roos.Base.Action.{Action}
use roos.Core.Tool.{Tool, ToolError, invalid_input, not_allowed, execution_failed}

-- The white space characters of Unicode by their UTF-8 bytes.
abbrev ws1 : ℕ → Bool
ws1 a = (leb 9 a && leb a 13) || nat_eq a 32

abbrev ws2 : ℕ → ℕ → Bool
ws2 a b = nat_eq a 194 && (nat_eq b 133 || nat_eq b 160)

abbrev ws3 : ℕ → ℕ → ℕ → Bool
ws3 a b c =
    (nat_eq a 225 && (nat_eq b 154 && nat_eq c 128))
    || ((nat_eq a 226
          && (nat_eq b 128
              && ((leb 128 c && leb c 138) || (nat_eq c 168 || (nat_eq c 169 || nat_eq c 175)))))
        || ((nat_eq a 226 && (nat_eq b 129 && nat_eq c 159))
            || (nat_eq a 227 && (nat_eq b 128 && nat_eq c 128))))

-- The bytes of the white space character at the front, or 0.
unfoldable pub width : Text → ℕ
width [] = 0
width (a ∷ []) = if ws1 a then 1 else 0
width (a ∷ b ∷ []) = if ws1 a then 1 else if ws2 a b then 2 else 0
width (a ∷ b ∷ c ∷ s) = if ws1 a then 1 else if ws2 a b then 2 else if ws3 a b c then 3 else 0

-- The text after `n` bytes and the white space there.
unfoldable pub skip_space : ℕ → Text → Text
skip_space n [] = []
skip_space (suc n) (a ∷ s) = skip_space n s
skip_space zero (a ∷ s) = elim (width (a ∷ s)) [ zero ↦ a ∷ s | suc n ↦ skip_space n s ]

unfoldable pub word : Text → Text
word [] = []
word (a ∷ s) = let rest = word s in if nat_eq (width (a ∷ s)) 0 then a ∷ rest else []

-- `command.split_whitespace().next().unwrap_or("")`
unfoldable pub first_token : Text → Text
unfolding skip_space word
first_token command = word (skip_space 0 command)

unfoldable pub is_allowed : List Text → Text → Bool
unfolding first_token
is_allowed allowlist command =
    if is_empty allowlist then true else any (λ a. text_eq a (first_token command)) allowlist

-- `ExecuteShellTool { allowlist }`.
pub record ExecuteShellTool : Type 0 where
  pub allowlist : List Text

unfoldable pub new : ExecuteShellTool
new = record { allowlist = [] }

unfoldable pub with_allowlist : List Text → ExecuteShellTool
with_allowlist allowlist = record { allowlist = allowlist }

unfoldable pub tool_name : Text
unfolding codes
tool_name = codes "execute_shell"

module _ {W : Type 0} (run : Text → Action W Text (Text × Text)) where
  abbrev pub collected : Result Text (Text × Text) × W → Result ToolError Text × W
  collected (ok (stdout, stderr), w) = (ok (stdout ++ stderr), w)
  collected (err e, w) = (err (execution_failed tool_name e), w)

  abbrev pub on_command : List Text → Result Text Text → Action W ToolError Text
  on_command allowlist (err e) w = (err (invalid_input tool_name e), w)
  on_command allowlist (ok command) w =
      if is_allowed allowlist command
      then collected (run command w)
      else (err (not_allowed tool_name), w)

  unfoldable pub execute :
      {J : Type 0} → (J → Result Text Text) → List Text → J → Action W ToolError Text
  execute from_value allowlist input = on_command allowlist (from_value input)

  -- `impl Tool for ExecuteShellTool`; the derived schema is the argument `schema`.
  unfoldable pub shell_tool :
      {J : Type 0} → J → (J → Result Text Text) → ExecuteShellTool → Tool W J
  unfolding codes tool_name execute
  shell_tool schema from_value self = record {
    name = tool_name;
    description = codes "Execute a shell command and return its combined stdout and stderr output.";
    schema = schema;
    execute = execute from_value self.allowlist;
  }
