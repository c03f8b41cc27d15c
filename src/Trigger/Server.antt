-- ===== src/Trigger/Server.antt =====
-- crates/roos-trigger/src/server.rs: the state, the handlers and the router. A lock that is never
-- poisoned is not modelled: no handler panics while it holds one.
pub mod Access
pub mod Serve
pub mod Paths
pub mod Waiting
use roos.Base.{
  ℕ, ℕ_eq, Text, codes, Option, none, some, List, [], ◌∷◌, ◌++◌, Result, ok, err, ok_or,
}
use roos.Base.Dict
use roos.Base.Dict.{Dict}
use roos.Base.Action.{Action, lift, ◌>>=◌}
use roos.Core.Types.{Uuid}
use roos.Trigger.Http.{Request, StatusCode, bad_request, not_found}
use roos.Trigger.Auth.{require_bearer}
use roos.Trigger.Webhook.{Crypto, require_webhook_signature}

pub record TriggerRequest (J : Type 0) : Type 0 where
  pub agent : Text
  pub input : J

pub record RunRecord (J : Type 0) : Type 0 where
  pub run_id : Text
  pub agent : Text
  pub status : Text
  pub output : Option J

-- `rng` is the source of `Uuid::new_v4`.
pub record AppState (J G : Type 0) : Type 0 where
  pub runs : Dict Uuid (RunRecord J)
  pub agents : List Text
  pub rng : G

-- The body of an answer that is not an error status.
pub data Response (J : Type 0) : Type 0 where
  health : Text → Response J
  agents : List Text → Response J
  accepted : Text → Response J
  found : RunRecord J → Response J

-- The four routes, with the segment that `:id` matched.
pub data Route : Type 0 where
  to_health to_agents to_trigger : Route
  to_runs : Text → Route

pub record TriggerServer : Type 0 where
  pub bearer_token : Option Text
  pub webhook_secret : Option Text

abbrev pub new : TriggerServer
new = record { bearer_token = none; webhook_secret = none }

abbrev pub with_token : Text → TriggerServer → TriggerServer
with_token token self = record self { bearer_token = some token }

abbrev pub with_webhook_secret : Text → TriggerServer → TriggerServer
with_webhook_secret secret self = record self { webhook_secret = some secret }

-- `uuid`, and axum's `Json` extractor with its rejections.
pub record Web (J G : Type 0) : Type 0 where
  pub new_v4 : G → Uuid × G
  pub to_string : Uuid → Text
  pub parse : Text → Option Uuid
  pub json : Request → Result StatusCode (TriggerRequest J)

module _ {J G : Type 0} where
  unfoldable pub register_agent : Text → AppState J G → AppState J G
  register_agent name state = record state { agents = state.agents ++ (name ∷ []) }

  unfoldable pub health_handler : Action (AppState J G) StatusCode (Response J)
  unfolding codes
  health_handler state = (ok (health (codes "ok")), state)

  unfoldable pub agents_handler : Action (AppState J G) StatusCode (Response J)
  agents_handler state = (ok (agents state.agents), state)

-- `.map(Json)`
abbrev pub map_found :
    {J : Type 0} → Result StatusCode (RunRecord J) → Result StatusCode (Response J)
map_found (ok run) = ok (found run)
map_found (err e) = err e

module _ {J G : Type 0} (web : Web J G) where
  unfoldable pub pending : Uuid → TriggerRequest J → RunRecord J
  unfolding codes
  pending run_id req = record {
    run_id = web.to_string run_id;
    agent = req.agent;
    status = codes "pending";
    output = none;
  }

  unfoldable pub trigger_handler : TriggerRequest J → Action (AppState J G) StatusCode (Response J)
  trigger_handler req state =
      let (run_id, rng') = web.new_v4 state.rng in
      (
        ok (accepted (web.to_string run_id)),
        record state { runs = Dict.insert state.runs run_id (pending run_id req); rng = rng' },
      )

  abbrev pub run_found : Option Uuid → AppState J G → Result StatusCode (RunRecord J)
  run_found none state = err bad_request
  run_found (some uuid) state = ok_or (Dict.get state.runs uuid) not_found

  unfoldable pub runs_handler : Text → Action (AppState J G) StatusCode (Response J)
  runs_handler id state = (map_found (run_found (web.parse id) state), state)

  -- The `/trigger` route with its extractor.
  unfoldable pub on_trigger : Request → Action (AppState J G) StatusCode (Response J)
  unfolding trigger_handler
  on_trigger request = do req ← lift (web.json request); trigger_handler req

module _ {J G M : Type 0} (web : Web J G) (crypto : Crypto M) where
  -- The layer is there only if a secret is.
  abbrev pub trigger_route : Option Text → Request → Action (AppState J G) StatusCode (Response J)
  trigger_route none request = on_trigger web request
  trigger_route (some secret) request =
      require_webhook_signature crypto (some secret) request (on_trigger web)

  abbrev pub protected :
      TriggerServer → Route → Request → Action (AppState J G) StatusCode (Response J)
  protected server to_health request = health_handler
  protected server to_agents request = agents_handler
  protected server to_trigger request = trigger_route server.webhook_secret request
  protected server (to_runs id) request = runs_handler web id

  -- What `router()` answers on a route.
  unfoldable pub handle :
      TriggerServer → Route → Request → Action (AppState J G) StatusCode (Response J)
  unfolding require_bearer
  handle server to_health request = health_handler
  handle server route request = require_bearer server.bearer_token request (protected server route)
