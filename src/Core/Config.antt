-- ===== src/Core/Config.antt =====
-- crates/roos-core/src/config.rs: the configuration file and its `${VAR}` placeholders. Reading the
-- file, parsing TOML and the environment are parameters.
pub mod Templates
pub mod Complete
pub mod Decompose
use roos.Base.{
  ℕ, zero, suc, ◌+◌, ◌-◌, Text, codes, find, Option, none, some, List, [], ◌++◌, Result, ok, err,
  map_err, ok_or, ◌>>=◌, length, take, drop, show_nat,
}

pub data ConfigError : Type 0 where
  io : Text → ConfigError
  parse_error : Text → ConfigError
  missing_env_var : Text → ConfigError
  malformed_placeholder : ℕ → ConfigError

unfoldable pub display : ConfigError → Text
unfolding codes show_nat
display (io e) = codes "config I/O error: " ++ e
display (parse_error e) = codes "config parse error: " ++ e
display (missing_env_var v) = codes "env var '${" ++ (v ++ codes "}' is not set")
display (malformed_placeholder at) = codes "malformed '${...}' placeholder at byte " ++ show_nat at

-- `Error::source`.
unfoldable pub source : ConfigError → Option Text
source (io e) = some e
source (parse_error e) = some e
source (missing_env_var v) = none
source (malformed_placeholder at) = none

pub record AgentConfig : Type 0 where
  pub name : Text
  pub description : Text
  pub max_steps : Option ℕ

-- `temperature` is an `f32`, kept as its 32 bits.
pub record ProviderConfig : Type 0 where
  pub provider_type : Text
  pub model : Text
  pub api_key : Option Text
  pub max_tokens : Option ℕ
  pub temperature : Option ℕ

pub record MemoryConfig : Type 0 where
  pub backend : Text

pub record RoosConfig : Type 0 where
  pub agent : AgentConfig
  pub provider : ProviderConfig
  pub memory : Option MemoryConfig

-- `std::env::var`, `toml::from_str` and `std::fs::read_to_string`.
pub record Host : Type 0 where
  pub env_var : Text → Option Text
  pub from_str : Text → Result Text RoosConfig
  pub read_to_string : Text → Result Text Text

module _ (env_var : Text → Option Text) (s : Text) where
  -- The parts of one round, with the rounds that follow as `go_on`: the value of the variable, the
  -- closing brace, and the placeholder's start.
  abbrev pub at_value :
      (Text → Text → Option (Result ConfigError Text))
      → Text
      → Text
      → Text
      → Option Text
      → Option (Result ConfigError Text)
  at_value go_on out rest var_name none = some (err (missing_env_var var_name))
  at_value go_on out rest var_name (some value) = go_on rest (out ++ value)

  abbrev pub at_close :
      (Text → Text → Option (Result ConfigError Text))
      → Text
      → ℕ
      → Text
      → Option ℕ
      → Option (Result ConfigError Text)
  at_close go_on out at after_dollar none = some (err (malformed_placeholder at))
  at_close go_on out at after_dollar (some close) =
      at_value go_on out (drop (close + 1) after_dollar) (take close after_dollar)
        (env_var (take close after_dollar))

  abbrev pub at_start :
      (Text → Text → Option (Result ConfigError Text))
      → Text
      → Text
      → Option ℕ
      → Option (Result ConfigError Text)
  at_start go_on rest out none = some (ok (out ++ rest))
  at_start go_on rest out (some start) =
      at_close go_on (out ++ take start rest) (length s - length rest + start)
        (drop (start + 2) rest) (find (codes "}") (drop (start + 2) rest))

  -- The `while let` loop: what it has written is `out`, and `rest` is what it has not read. `none`
  -- is a loop that still runs after `fuel` rounds.
  unfoldable pub interpolate_rest : ℕ → Text → Text → Option (Result ConfigError Text)
  unfolding codes
  interpolate_rest zero rest out = none
  interpolate_rest (suc fuel) rest out =
      at_start (interpolate_rest fuel) rest out (find (codes "${") rest)

  unfoldable pub interpolate_env_vars : Option (Result ConfigError Text)
  unfolding interpolate_rest
  interpolate_env_vars = interpolate_rest (suc (length s)) s []

module _ (host : Host) where
  abbrev pub parsed : Option (Result ConfigError Text) → Option (Result ConfigError RoosConfig)
  parsed none = none
  parsed (some r) = some (do interpolated ← r; map_err parse_error (host.from_str interpolated))

  unfoldable pub parse : Text → Option (Result ConfigError RoosConfig)
  unfolding interpolate_env_vars
  parse toml = parsed (interpolate_env_vars host.env_var toml)

  abbrev pub read : Result Text Text → Option (Result ConfigError RoosConfig)
  read (err e) = some (err (io e))
  read (ok raw) = parse raw

  unfoldable pub from_file : Text → Option (Result ConfigError RoosConfig)
  unfolding parse
  from_file path = read (host.read_to_string path)
