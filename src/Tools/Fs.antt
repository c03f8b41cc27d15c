-- ===== src/Tools/Fs.antt =====
-- crates/roos-tools/src/fs.rs: reading and writing files, listing directories. `std::fs` is the
-- parameter `fs`; a file name in it is lossy text.
pub mod Laws
use roos.Base.{ℕ, Text, codes, show_nat, length, join, List, [], ◌∷◌, ◌++◌, Result, ok, err}
use roos.Base.Action.{Action, lift, pure, ◌>>=◌, ◌>>◌}
use roos.Base.Order.{sort}
use roos.Core.Tool.{Tool, ToolError, execution_failed}
use roos.Tools.Input.{on_input, attempt}

pub record Fs (W : Type 0) : Type 0 where
  pub read_to_string : Text → Action W Text Text
  pub write : Text → Text → Action W Text (Unit {0})
  -- The names of the entries, or the errors in their places.
  pub read_dir : Text → Action W Text (List (Result Text Text))

pub record ReadFileInput : Type 0 where
  pub path : Text

pub record WriteFileInput : Type 0 where
  pub path : Text
  pub content : Text

pub record ListDirectoryInput : Type 0 where
  pub path : Text

unfoldable pub read_file_name : Text
unfolding codes
read_file_name = codes "read_file"

unfoldable pub write_file_name : Text
unfolding codes
write_file_name = codes "write_file"

unfoldable pub list_directory_name : Text
unfolding codes
list_directory_name = codes "list_directory"

unfoldable pub wrote : ℕ → Text → Text
unfolding codes join show_nat
wrote bytes path = join [] (codes "Wrote " ∷ show_nat bytes ∷ codes " bytes to " ∷ path ∷ [])

-- The `for` loop over the rest of the entries, with the names that it has pushed.
unfoldable pub collect : List (Result Text Text) → List Text → Result ToolError (List Text)
collect [] names = ok names
collect (err e ∷ rest) names = err (execution_failed list_directory_name e)
collect (ok name ∷ rest) names = collect rest (names ++ name ∷ [])

unfoldable pub listing : List Text → Text
unfolding codes join sort
listing names = join (codes "\n") (sort names)

module _ {W J : Type 0} (fs : Fs W) where
  unfoldable pub read_file : (J → Result Text ReadFileInput) → J → Action W ToolError Text
  unfolding read_file_name
  read_file from_value input =
      on_input read_file_name (from_value input)
        λ inp. attempt read_file_name (fs.read_to_string inp.path)

  unfoldable pub write_file : (J → Result Text WriteFileInput) → J → Action W ToolError Text
  unfolding write_file_name
  write_file from_value input = on_input write_file_name (from_value input) λ inp. do
    attempt write_file_name (fs.write inp.path inp.content)
    pure (wrote (length inp.content) inp.path)

  unfoldable pub list_directory : (J → Result Text ListDirectoryInput) → J → Action W ToolError Text
  unfolding list_directory_name collect
  list_directory from_value input = on_input list_directory_name (from_value input) λ inp. do
    entries ← attempt list_directory_name (fs.read_dir inp.path)
    names ← lift (collect entries [])
    pure (listing names)

-- The tools, with the schemas that `schemars` derives.
module _ {W J : Type 0} (fs : Fs W) where
  unfoldable pub read_file_tool : J → (J → Result Text ReadFileInput) → Tool W J
  unfolding codes read_file read_file_name
  read_file_tool schema from_value = record {
    name = read_file_name;
    description = codes "Read the entire text content of a file at the given path.";
    schema = schema;
    execute = read_file fs from_value;
  }

  unfoldable pub write_file_tool : J → (J → Result Text WriteFileInput) → Tool W J
  unfolding codes write_file write_file_name
  write_file_tool schema from_value = record {
    name = write_file_name;
    description = codes "Write text content to a file, creating or overwriting it.";
    schema = schema;
    execute = write_file fs from_value;
  }

  unfoldable pub list_directory_tool : J → (J → Result Text ListDirectoryInput) → Tool W J
  unfolding codes list_directory list_directory_name
  list_directory_tool schema from_value = record {
    name = list_directory_name;
    description = codes "List the files and directories at the given path, one entry per line.";
    schema = schema;
    execute = list_directory fs from_value;
  }
