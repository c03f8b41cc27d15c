-- ===== src/Cli/Main.antt =====
-- crates/roos-cli/src/main.rs: the commands and which of them `main` runs. Parsing the arguments is
-- the `clap` crate's; what a missing option stands for is `default_config` and `default_port`.
use roos.Base.{ℕ, Text, codes, Bool, Option, none, some, List, Result, ok, err}
use roos.Core.Config.{Host}
use roos.Core.Types.{Uuid}
use roos.Orchestrator.Calls.{Platform}
use roos.Scheduler.Backend.{Backend}
use roos.Trigger.Server.{Web}
use roos.Trigger.Webhook.{Crypto}
use roos.Cli.ListAgents
use roos.Cli.New
use roos.Cli.New.{Disk}
use roos.Cli.Run
use roos.Cli.Run.{Session, Net}
use roos.Cli.Serve
use roos.Cli.Serve.{Event, Served, Paths}

pub data Commands : Type 0 where
  new_project : Text → Commands
  run_agent : Text → Text → Commands
  list_agents : Text → Commands
  serve_triggers : ℕ → Text → Bool → Commands

unfoldable pub default_config : Text
unfolding codes
default_config = codes "roos.toml"

unfoldable pub default_port : ℕ
default_port = 8080

-- What a command shows: the lines that it prints, or what the service shows.
pub data Output (J : Type 0) : Type 0 where
  lines : List Text → Output J
  service : Served J → Output J

module _ {J : Type 0} where
  abbrev pub printing : Result Text (List Text) → Result Text (Output J)
  printing (ok ls) = ok (lines ls)
  printing (err e) = err e

  abbrev pub showing : Result Text (Served J) → Result Text (Output J)
  showing (ok shown) = ok (service shown)
  showing (err e) = err e

  module _ {W : Type 0} where
    abbrev pub created : Result Text (List Text) × W → Option (Result Text (Output J) × W)
    created (r, w) = some (printing r, w)

    abbrev pub acted : Option (Result Text (List Text) × W) → Option (Result Text (Output J) × W)
    acted none = none
    acted (some (r, w)) = some (printing r, w)

    abbrev pub listed : Option (Result Text (List Text)) → W → Option (Result Text (Output J) × W)
    listed none w = none
    listed (some r) w = some (printing r, w)

    abbrev pub served : Option (Result Text (Served J)) → W → Option (Result Text (Output J) × W)
    served none w = none
    served (some r) w = some (showing r, w)

-- What the commands take from outside: `id` is the id of a run, and `events` what reaches the service.
module _ {W H J T C D B S G M : Type 0} (host : Host) (disk : Disk W) (net : Net W H J)
    (env : Platform (Session W) J T C) (backend : Backend D B S T) (web : Web J G)
    (crypto : Crypto M) (paths : Paths) (sled_open : Text → Result Text D)
    (bind : Text → Result Text (Unit {0})) (show_uuid : Uuid → Text) (rng : G) (id : Uuid)
    (events : List (Event T)) where
  -- The `match cli.command`. `none` is a command that does not end.
  unfoldable pub main : Commands → W → Option (Result Text (Output J) × W)
  unfolding New.run Run.run ListAgents.run Serve.run
  main (new_project name) w = created (New.run disk name w)
  main (run_agent input config) w = acted (Run.run net env host config input id w)
  main (list_agents config) w = listed (ListAgents.run host config) w
  main (serve_triggers port config daemonize) w =
      served
        (Serve.run backend web crypto paths sled_open bind show_uuid rng host port config events) w
