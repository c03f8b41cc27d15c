-- ===== src/Cli/ListAgents.antt =====
-- crates/roos-cli/src/cmd/list.rs: the table of the agents. What `println!` writes is the list of lines
-- in the result.
pub mod Columns
use roos.Base.{
  ℕ, zero, suc, ◌+◌, ◌-◌, ltb, leb, ◌&&◌, if◌then◌else◌, Text, codes, join, Option, none, some,
  List, [], ◌∷◌, ◌++◌, map, Result, ok, err,
}
use roos.Core.Config.{Host, RoosConfig, ConfigError, from_file}
use roos.Cli.Run.{failed_to_load}

pub record AgentInfo : Type 0 where
  pub name : Text
  pub description : Text
  pub provider : Text
  pub model : Text

abbrev pub agent_info : RoosConfig → AgentInfo
agent_info cfg = record {
  name = cfg.agent.name;
  description = cfg.agent.description;
  provider = cfg.provider.provider_type;
  model = cfg.provider.model;
}

abbrev pub loaded :
    Text → Option (Result ConfigError RoosConfig) → Option (Result Text (List AgentInfo))
loaded config_path none = none
loaded config_path (some (err e)) = some (err (failed_to_load config_path e))
loaded config_path (some (ok cfg)) = some (ok (agent_info cfg ∷ []))

unfoldable pub load_agents : Host → Text → Option (Result Text (List AgentInfo))
unfolding from_file
load_agents host config_path = loaded config_path (from_file host config_path)

-- The characters of a text: the bytes that do not continue one.
unfoldable pub char_count : Text → ℕ
char_count [] = 0
char_count (b ∷ s) = let rest = char_count s in if leb 128 b && ltb b 192 then rest else suc rest

unfoldable pub spaces : ℕ → Text
spaces zero = []
spaces (suc n) = 32 ∷ spaces n

unfoldable pub dashes : ℕ → Text
dashes zero = []
dashes (suc n) = 45 ∷ dashes n

-- `{:<n}`
unfoldable pub padded : ℕ → Text → Text
unfolding char_count spaces
padded n s = s ++ spaces (n - char_count s)

unfoldable pub row : Text → Text → Text → Text → Text
unfolding padded
row name description provider model =
    padded 30 name ++ (32 ∷ (padded 40 description ++ (32 ∷ (padded 12 provider ++ (32 ∷ model)))))

unfoldable pub table : List AgentInfo → List Text
unfolding codes dashes row
table agents =
    row (codes "NAME") (codes "DESCRIPTION") (codes "PROVIDER") (codes "MODEL")
    ∷ dashes 90
    ∷ map (λ a. row a.name a.description a.provider a.model) agents

abbrev pub printed : Option (Result Text (List AgentInfo)) → Option (Result Text (List Text))
printed none = none
printed (some (err e)) = some (err e)
printed (some (ok agents)) = some (ok (table agents))

unfoldable pub run : Host → Text → Option (Result Text (List Text))
unfolding load_agents
run host config_path = printed (load_agents host config_path)
