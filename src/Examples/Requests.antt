-- ===== src/Examples/Requests.antt =====
-- Requests to a server with a token, a webhook secret and no cryptography to speak of.
use roos.Base.{ℕ, suc, ◌≡◌, refl, Text, text_eq, codes, ◌++◌, Option, none, some, [], ◌∷◌, err, ◌⊎◌}
use roos.Trigger.Http.{Request, StatusCode, unauthorized, unprocessable}
use roos.Trigger.Webhook.{Crypto}
use roos.Trigger.Server
use roos.Trigger.Server.{
  TriggerServer, with_token, with_webhook_secret, Web, AppState, TriggerRequest, Response, Route,
  to_agents, to_health, to_trigger, found, pending, trigger_handler, runs_handler, handle,
}
use roos.Trigger.Server.Access.{IsSigned, handle_guarded, trigger-IsSigned}

abbrev crypto : Crypto Text
crypto = record {
  new_from_slice = some;
  update = λ mac body. mac ++ body;
  verify_slice = text_eq;
  hex_decode = some;
}

-- A `Uuid` is written as that many bytes.
abbrev unary : ℕ → Text
unary n = n ∷ []

abbrev parsed : Text → Option ℕ
parsed [] = none
parsed (n ∷ rest) = some n

abbrev web : Web Text ℕ
web = record {
  new_v4 = λ g. (g, suc g);
  to_string = unary;
  parse = parsed;
  json = λ r. err unprocessable;
}

abbrev state : AppState Text ℕ
state = record { runs = []; agents = codes "writer" ∷ []; rng = 4 }

abbrev stranger : Request
stranger = record {
  authorization = none;
  hub_signature = none;
  roos_signature = none;
  body = some (codes "{}");
}

handle_guarded_example :
    handle web crypto (with_token (codes "t") Server.new) to_agents stranger state
    ≡ (err unauthorized, state)
handle_guarded_example =
    (handle_guarded web crypto Server.new (codes "t") to_agents stranger state refl).0 (λ same. cc)
      (λ same. cc)

trigger-IsSigned_example :
    IsSigned crypto (codes "s") stranger
    ⊎ ((e : StatusCode) × (handle web crypto
            (with_webhook_secret (codes "s") Server.new)
            to_trigger
            stranger
            state
          ≡ (err e, state)))
trigger-IsSigned_example = trigger-IsSigned web crypto Server.new (codes "s") stranger state
