-- ===== src/Trigger/Server/Paths.antt =====
-- The ways through the two checks to the handlers of crates/roos-trigger/src/server.rs.
use roos.Base.{
  ◌≡◌, refl, ap, subst, inl, inr, Bool-cases, Text, text_eq, Option, none, some, Result, ok, err,
  Result-cases,
}
use roos.Trigger.Auth.{admit, provided, require_bearer}
use roos.Trigger.Http.{Request, StatusCode}
use roos.Trigger.Server.{
  TriggerServer, TriggerRequest, AppState, Response, Route, to_health, to_agents, to_trigger,
  to_runs, Web, trigger_handler, trigger_route, health_handler, agents_handler, runs_handler,
  on_trigger, handle, protected,
}
use roos.Trigger.Webhook.{Crypto, is_valid, check_body, check_signed, require_webhook_signature}

-- `Q` holds of every refusal in the state `s`.
module _ {S A : Type 0} (Q : Result StatusCode A × S → Type 0) (s : S)
    (refused : (e : StatusCode) → Q (err e, s)) where
  admit-keeps :
      (token actual : Option Text) (next : S → Result StatusCode A × S)
      → Q (next s)
      → Q (admit token actual next s)
  admit-keeps none actual next q = q
  admit-keeps (some expected) none next q = refused _
  admit-keeps (some expected) (some actual) next q = elim (Bool-cases (text_eq expected actual)) [
    | inl same ↦ rw same q
    | inr other ↦ rw other (refused _)
  ]

  module _ {M : Type 0} (crypto : Crypto M) (secret : Text) (request : Request)
      (next : Request → S → Result StatusCode A × S) (q : Q (next request s)) where
    check_body-keeps :
        (body : Option Text)
        → request.body ≡ body
        → Q (check_body crypto secret request next body s)
    check_body-keeps none h = refused _
    check_body-keeps (some bytes) h =
        elim (Bool-cases
          (is_valid crypto secret bytes request.hub_signature request.roos_signature)) [
            | inl valid ↦
                rw valid (subst (λ r. Q (next r s)) (ap (λ b. record request { body = b }) h) q)
            | inr invalid ↦ rw invalid (refused _)
          ]

    check_signed-keeps :
        (hub roos : Option Text) → Q (check_signed crypto secret request next hub roos s)
    check_signed-keeps none none = refused _
    check_signed-keeps (some sig) roos = check_body-keeps request.body refl
    check_signed-keeps none (some sig) = check_body-keeps request.body refl

module _ {J G M : Type 0} (web : Web J G) (crypto : Crypto M) (s : AppState J G) where
  module _ (Q : Result StatusCode (Response J) × AppState J G → Type 0)
      (refused : (e : StatusCode) → Q (err e, s)) (request : Request)
      (triggers : (req : TriggerRequest J)
        → web.json request ≡ ok req
        → Q (trigger_handler web req s)) where
    on_trigger-keeps : Q (on_trigger web request s)
    unfolding on_trigger
    on_trigger-keeps = elim (Result-cases (web.json request)) [
      | inl (req, p) ↦ rw p (triggers req p)
      | inr (e, p) ↦ rw p (refused e)
    ]

    trigger_route-keeps : (secret : Option Text) → Q (trigger_route web crypto secret request s)
    unfolding require_webhook_signature
    trigger_route-keeps none = on_trigger-keeps
    trigger_route-keeps (some secret) =
        check_signed-keeps Q s refused crypto secret request (on_trigger web) on_trigger-keeps
          request.hub_signature request.roos_signature

    -- `/trigger` refuses a request and leaves the state, or runs `trigger_handler` on its body.
    pub trigger-keeps : (server : TriggerServer) → Q (handle web crypto server to_trigger request s)
    unfolding handle require_bearer
    trigger-keeps server =
        admit-keeps Q s refused server.bearer_token (provided request.authorization)
          (protected web crypto server to_trigger request)
          (trigger_route-keeps server.webhook_secret)

  module _ (P : AppState J G → Type 0) (same : P s)
      (triggers : (req : TriggerRequest J) → P (trigger_handler web req s).1) (request : Request)
      (server : TriggerServer) where
    abbrev admitted-keeps :
        (route : Route)
        → P (protected web crypto server route request s).1
        → P
            (admit server.bearer_token
              (provided request.authorization)
              (protected web crypto server route request)
              s).1
    admitted-keeps route q =
        admit-keeps (λ x. P x.1) s (λ e. same) server.bearer_token (provided request.authorization)
          (protected web crypto server route request) q

    -- The other routes leave the state.
    pub handle-keeps : (route : Route) → P (handle web crypto server route request s).1
    unfolding handle require_bearer runs_handler health_handler agents_handler
    handle-keeps to_health = same
    handle-keeps to_agents = admitted-keeps to_agents same
    handle-keeps to_trigger =
        trigger-keeps (λ x. P x.1) (λ e. same) request (λ req read. triggers req) server
    handle-keeps (to_runs id) = admitted-keeps (to_runs id) same
