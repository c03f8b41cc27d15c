-- ===== src/Trigger/Server/Access.antt =====
-- Who reaches the handlers of crates/roos-trigger/src/server.rs, and what they leave.
use roos.Base.{
  ℕ_eq, ◌≡◌, ◌≢◌, refl, sym, ap, ◌∙◌, ◌⊎◌, Text, text_Eq, text_eq, text_eq_iff, codes, strip_prefix,
  strip_prefix_sound, ◌++◌, true, false, Bool-cases, Option, none, some, Option-cases, Result, err,
  inl, inr,
}
use roos.Trigger.Auth.{admit, provided, require_bearer}
use roos.Trigger.Http.{Request, StatusCode, unauthorized, bad_request}
use roos.Trigger.Webhook.{Crypto, is_valid, check_body, check_signed, require_webhook_signature}
use roos.Trigger.Server.{
  TriggerServer, AppState, Route, to_health, to_agents, to_trigger, to_runs, with_token,
  with_webhook_secret, Web, on_trigger, handle, protected,
}

module _ {S A : Type 0} (token : Text) (authorization : Option Text)
    (next : S → Result StatusCode A × S) where
  bearer_passes :
      authorization ≡ some (codes "Bearer " ++ token)
      → admit (some token) (provided authorization) next ≡ next
  unfolding provided codes strip_prefix
  bearer_passes h = rw (h, (text_eq_iff token token).1 refl) refl

  open_passes :
      (bearer : Option Text) → bearer ≡ none → admit bearer (provided authorization) next ≡ next
  open_passes bearer h = rw h refl

  bearer_refuses :
      (s : S)
      → authorization ≢ some (codes "Bearer " ++ token)
      → admit (some token) (provided authorization) next s ≡ (err unauthorized, s)
  unfolding provided
  bearer_refuses s h = elim (Option-cases authorization) [
    | inl gone ↦ rw gone refl
    | inr (v, e) ↦ elim (Option-cases (strip_prefix (codes "Bearer ") v)) [
      | inl gone ↦ rw (e, gone) refl
      | inr (t, cut) ↦
          let same : v ≡ codes "Bearer " ++ t = strip_prefix_sound (codes "Bearer ") v cut in
          elim (Bool-cases (text_eq token t)) [
            | inl equal ↦ absurd (
                h (
                  e
                  ∙ ap some (
                      same ∙ ap (λ u. codes "Bearer " ++ u) (sym ((text_eq_iff token t).0 equal)))))
            | inr other ↦ rw (e, cut, other) refl
          ]
    ]
  ]

-- The body of the request is read, and the signature that is checked is valid for it.
abbrev pub IsSigned : {M : Type 0} → Crypto M → Text → Request → Type 0
IsSigned crypto secret request =
    (bytes : Text) × (request.body ≡ some bytes)
    × (is_valid crypto secret bytes request.hub_signature request.roos_signature ≡ true)

module _ {M S A : Type 0} (crypto : Crypto M) (secret : Text) (request : Request)
    (next : Request → S → Result StatusCode A × S) (s : S) where
  abbrev Refused : (S → Result StatusCode A × S) → Type 0
  Refused action = (e : StatusCode) × (action s ≡ (err e, s))

  unread : (body : Option Text) → body ≡ none → Refused (check_body crypto secret request next body)
  unread body h = (bad_request, rw h refl)

  unsigned :
      (body : Option Text) (bytes : Text)
      → body ≡ some bytes
      → is_valid crypto secret bytes request.hub_signature request.roos_signature ≡ false
      → Refused (check_body crypto secret request next body)
  unsigned body bytes h invalid = (unauthorized, rw (h, invalid) refl)

  any_signature :
      (hub roos : Option Text)
      → Refused (check_body crypto secret request next request.body)
      → Refused (check_signed crypto secret request next hub roos)
  any_signature none none h = (unauthorized, refl)
  any_signature (some sig) roos h = h
  any_signature none (some sig) h = h

  webhook_checked :
      IsSigned crypto secret request
      ⊎ Refused (require_webhook_signature crypto (some secret) request next)
  unfolding require_webhook_signature
  webhook_checked = elim (Option-cases request.body) [
    | inl gone ↦
        inr (any_signature request.hub_signature request.roos_signature (unread request.body gone))
    | inr (bytes, read) ↦
        elim (Bool-cases
          (is_valid crypto secret bytes request.hub_signature request.roos_signature)) [
            | inl valid ↦ inl (bytes, read, valid)
            | inr invalid ↦ inr (
                any_signature request.hub_signature request.roos_signature
                  (unsigned request.body bytes read invalid))
          ]
  ]

module _ {S A : Type 0} (s : S) (next : S → Result StatusCode A × S) where
  -- What a handler refuses, it refuses behind the bearer check too.
  bearer_refused :
      (token actual : Option Text)
      → ((e : StatusCode) × (next s ≡ (err e, s)))
      → (e : StatusCode) × (admit token actual next s ≡ (err e, s))
  bearer_refused none actual h = h
  bearer_refused (some expected) none h = (unauthorized, refl)
  bearer_refused (some expected) (some actual) h = elim (Bool-cases (text_eq expected actual)) [
    | inl same ↦ (h.0, rw same h.1)
    | inr other ↦ (unauthorized, rw other refl)
  ]

module _ {J G M : Type 0} (web : Web J G) (crypto : Crypto M) where
  -- With a token, a request that is not to `/health` is answered as by the same server without one if
  -- its `Authorization` is `Bearer`, one space and the token, and is otherwise refused as
  -- unauthorized, the state unchanged. `/health` is answered to anyone.
  pub handle_guarded :
      (server : TriggerServer) (token : Text) (route : Route) (request : Request) (s : AppState J G)
      → server.bearer_token ≡ none
      → (route ≢ to_health
          → request.authorization ≢ some (codes "Bearer " ++ token)
          → handle web crypto (with_token token server) route request s ≡ (err unauthorized, s))
        × ((route ≡ to_health) ⊎ (request.authorization ≡ some (codes "Bearer " ++ token))
            → handle web crypto (with_token token server) route request s
              ≡ handle web crypto server route request s)
  unfolding handle require_bearer
  handle_guarded server token to_health request s bare =
      (λ some_route. absurd (some_route refl), λ _. refl)
  handle_guarded server token to_agents request s bare =
      let handler = protected web crypto server to_agents request in
      (
        λ _ wrong. bearer_refuses token request.authorization handler s wrong,
        λ right. elim right [
          | inl health_route ↦ cc
          | inr h ↦
              ap (λ f. f s)
                (bearer_passes token request.authorization handler h
                  ∙ sym (open_passes token request.authorization handler server.bearer_token bare))
        ],
      )
  handle_guarded server token to_trigger request s bare =
      let handler = protected web crypto server to_trigger request in
      (
        λ _ wrong. bearer_refuses token request.authorization handler s wrong,
        λ right. elim right [
          | inl health_route ↦ cc
          | inr h ↦
              ap (λ f. f s)
                (bearer_passes token request.authorization handler h
                  ∙ sym (open_passes token request.authorization handler server.bearer_token bare))
        ],
      )
  handle_guarded server token (to_runs id) request s bare =
      let handler = protected web crypto server (to_runs id) request in
      (
        λ _ wrong. bearer_refuses token request.authorization handler s wrong,
        λ right. elim right [
          | inl health_route ↦ cc
          | inr h ↦
              ap (λ f. f s)
                (bearer_passes token request.authorization handler h
                  ∙ sym (open_passes token request.authorization handler server.bearer_token bare))
        ],
      )

  -- With a webhook secret, `/trigger` answers with success or changes the state only if the body is
  -- read and the signature that the request carries is valid for it.
  pub trigger-IsSigned :
      (server : TriggerServer) (secret : Text) (request : Request) (s : AppState J G)
      → IsSigned crypto secret request
        ⊎ ((e : StatusCode) × (handle web crypto
                (with_webhook_secret secret server)
                to_trigger
                request
                s
              ≡ (err e, s)))
  unfolding handle require_bearer
  trigger-IsSigned server secret request s =
      elim (webhook_checked crypto secret request (on_trigger web) s) [
        | inl signed ↦ inl signed
        | inr (e, refused) ↦ inr (
            bearer_refused s
              (require_webhook_signature crypto (some secret) request (on_trigger web))
              server.bearer_token (provided request.authorization) (e, refused))
      ]
