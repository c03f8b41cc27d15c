-- ===== src/Cli/New.antt =====
-- crates/roos-cli/src/cmd/new.rs: a new project. `std::fs` and `Path::join` are the parameter `disk`; a
-- path is its text, and what `println!` writes is the list of lines in the result.
pub mod Template
use roos.Base.{Text, Bool, codes, join, if◌then◌else◌, List, [], ◌∷◌, ◌++◌, Result, ok, err}
use roos.Base.Action.{Action, pure, throw, ◌>>=◌, ◌>>◌}

pub record Disk (W : Type 0) : Type 0 where
  pub exists : Text → W → Bool
  pub create_dir_all : Text → Action W Text (Unit {0})
  pub write : Text → Text → Action W Text (Unit {0})
  pub join : Text → Text → Text

-- The text of `roos_toml` before the name, and behind it.
unfoldable pub before_name : Text
unfolding codes
before_name = codes "[agent]\nname = \""

unfoldable pub behind_name : Text
unfolding codes
behind_name =
    codes
      "\"\ndescription = \"A ROOS agent\"\nmax_steps = 10\n\n[provider]\ntype = \"anthropic\"\nmodel = \"claude-sonnet-4-6\"\napi_key = \"${ANTHROPIC_API_KEY}\"\n"

unfoldable pub roos_toml : Text → Text
unfolding before_name behind_name
roos_toml name = before_name ++ (name ++ behind_name)

unfoldable pub agent_stub : Text
unfolding codes
agent_stub = codes "// Agent implementation goes here.\n"

unfoldable pub already_exists : Text → Text
unfolding codes
already_exists target_dir = codes "directory '" ++ (target_dir ++ codes "' already exists")

unfoldable pub created : Text → List Text
unfolding codes join
created name =
    join [] (codes "Created project '" ∷ name ∷ codes "'" ∷ [])
    ∷ join [] (codes "  " ∷ name ∷ codes "/roos.toml" ∷ [])
    ∷ join [] (codes "  " ∷ name ∷ codes "/src/agent.rs" ∷ [])
    ∷ join [] (codes "  " ∷ name ∷ codes "/.gitignore" ∷ [])
    ∷ []

module _ {W : Type 0} (disk : Disk W) where
  abbrev pub write_files : Text → Text → Action W Text (List Text)
  write_files target_dir name = do
    disk.create_dir_all (disk.join target_dir (codes "src"))
    disk.write (disk.join target_dir (codes "roos.toml")) (roos_toml name)
    disk.write (disk.join (disk.join target_dir (codes "src")) (codes "agent.rs")) agent_stub
    disk.write (disk.join target_dir (codes ".gitignore")) (codes "/target\n")
    pure (created name)

  unfoldable pub scaffold : Text → Text → Action W Text (List Text)
  unfolding codes roos_toml agent_stub created already_exists
  scaffold target_dir name w =
      if disk.exists target_dir w
      then (err (already_exists target_dir), w)
      else write_files target_dir name w

  unfoldable pub run : Text → Action W Text (List Text)
  unfolding scaffold
  run name = scaffold name name
