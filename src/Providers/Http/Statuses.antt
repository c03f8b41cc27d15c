-- ===== src/Providers/Http/Statuses.antt =====
-- What a provider of crates/roos-providers/src makes of the status of an answer.
use roos.Base.{
  ℕ, ◌/◌, ◌≤◌, ◌<◌, ◌≡◌, ◌≢◌, ◌↔◌, ◌⊎◌, true, refl, arith, Text, none, Result, ok, err, is_ok,
}
use native.Mathlib.Decide.{ℕ_discrete}
use roos.Core.Provider.{
  CompletionResponse, ProviderError, unauthorized, rate_limited, server_error, network_error,
  invalid_response,
}
use roos.Providers.Http.{Auth, Http, extract_error, failed_with, parsed, on_status, exchange}

module _ {W H R A J : Type 0} (http : Http W H R A) (map_response : A → CompletionResponse J) where
  parsed-is_ok :
      (x : Result Text A × W) → (is_ok (parsed http map_response x).0 ≡ true) ↔ (is_ok x.0 ≡ true)
  parsed-is_ok (ok api, w) = (λ h. refl, λ h. refl)
  parsed-is_ok (err e, w) = (λ h. h, λ h. h)

  pub on_status-success :
      (status : ℕ) (resp : H) (w : W)
      → status / 100 ≡ 2
      → on_status http map_response status resp w ≡ parsed http map_response (http.json resp w)
  unfolding on_status
  on_status-success status resp w two = ground (arith, two)

  pub on_status-limited :
      (status : ℕ) (resp : H) (w : W)
      → status ≡ 429
      → on_status http map_response status resp w ≡ (err (rate_limited none), w)
  unfolding on_status
  on_status-limited status resp w h = ground (arith, h)

  pub on_status-is_ok :
      (status : ℕ) (resp : H) (w : W)
      → (is_ok (on_status http map_response status resp w).0 ≡ true)
        ↔ ((status / 100 ≡ 2) × (is_ok (http.json resp w).0 ≡ true))
  unfolding on_status
  on_status-is_ok status resp w =
      let inner = parsed-is_ok (http.json resp w) in
      (
        λ h. ground (arith, inner.0),
        λ (two, read). rw (on_status-success status resp w two) (inner.1 read),
      )

  -- An answer with a status: the message of an error is read from the body, except for 429.
  pub data Answered (resp : H) (status : ℕ) (v : W)
      (r : Result ProviderError (CompletionResponse J)) (w' : W) : Type 0 where
    completed :
        (api : A)
        → 200 ≤ status
        → status < 300
        → http.json resp v ≡ (ok api, w')
        → r ≡ ok (map_response api)
        → Answered resp status v r w'
    unreadable :
        (e : Text)
        → 200 ≤ status
        → status < 300
        → http.json resp v ≡ (err e, w')
        → r ≡ err (invalid_response e)
        → Answered resp status v r w'
    refused :
        status ≡ 401
        → r ≡ err (unauthorized (extract_error http resp v).0)
        → w' ≡ (extract_error http resp v).1
        → Answered resp status v r w'
    limited : status ≡ 429 → r ≡ err (rate_limited none) → w' ≡ v → Answered resp status v r w'
    failed :
        500 ≤ status
        → status < 600
        → r ≡ err (server_error status (extract_error http resp v).0)
        → w' ≡ (extract_error http resp v).1
        → Answered resp status v r w'
    rejected :
        (status < 200) ⊎ ((300 ≤ status) × (status < 500) ⊎ (600 ≤ status))
        → status ≢ 401
        → status ≢ 429
        → r ≡ err (invalid_response (extract_error http resp v).0)
        → w' ≡ (extract_error http resp v).1
        → Answered resp status v r w'

  -- The ways in which an exchange from the world `w` ends, by what the server sent.
  pub data Ending (auth : Auth) (url : Text) (body : R) (w : W)
      (r : Result ProviderError (CompletionResponse J)) (w' : W) : Type 0 where
    unreachable :
        (e : Text)
        → http.post auth url body w ≡ (err e, w')
        → r ≡ err (network_error e)
        → Ending auth url body w r w'
    answered :
        (resp : H) (v : W)
        → http.post auth url body w ≡ (ok resp, v)
        → Answered resp (http.status resp) v r w'
        → Ending auth url body w r w'

  abbrev AnsweredBy : H → ℕ → W → Result ProviderError (CompletionResponse J) × W → Type 0
  AnsweredBy resp status v x = Answered resp status v x.0 x.1

  parsed-Answered :
      (resp : H) (status : ℕ) (v : W) (x : Result Text A × W)
      → http.json resp v ≡ x
      → 200 ≤ status
      → status < 300
      → AnsweredBy resp status v (parsed http map_response x)
  parsed-Answered resp status v (ok api, w) h low high = completed api low high h refl
  parsed-Answered resp status v (err e, w) h low high = unreadable e low high h refl

  on_status-refused :
      (status : ℕ) (resp : H) (v : W)
      → status ≡ 401
      → on_status http map_response status resp v
        ≡ failed_with http map_response unauthorized resp v
  unfolding on_status
  on_status-refused status resp v h = ground (arith, h)

  on_status-failed :
      (status : ℕ) (resp : H) (v : W)
      → status / 100 ≡ 5
      → on_status http map_response status resp v
        ≡ failed_with http map_response (server_error status) resp v
  unfolding on_status
  on_status-failed status resp v h = ground (arith, h)

  on_status-rejected :
      (status : ℕ) (resp : H) (v : W)
      → status ≢ 401
      → status ≢ 429
      → status / 100 ≢ 5
      → status / 100 ≢ 2
      → on_status http map_response status resp v
        ≡ failed_with http map_response invalid_response resp v
  unfolding on_status
  on_status-rejected status resp v a b c d = ground (arith, a, b, c, d)

  on_status-Answered :
      (resp : H) (status : ℕ) (v : W)
      → AnsweredBy resp status v (on_status http map_response status resp v)
  on_status-Answered resp status v = elim (ℕ_discrete status 401) [
    | yes a ↦ rw (on_status-refused status resp v a) (refused a refl refl)
    | no a ↦ elim (ℕ_discrete status 429) [
      | yes b ↦ rw (on_status-limited status resp v b) (limited b refl refl)
      | no b ↦ elim (ℕ_discrete (status / 100) 5) [
        | yes c ↦
            rw (on_status-failed status resp v c)
              (failed (omega (arith, c)) (omega (arith, c)) refl refl)
        | no c ↦ elim (ℕ_discrete (status / 100) 2) [
          | yes d ↦ rw (on_status-success status resp v d) (
              parsed-Answered resp status v (http.json resp v) refl (omega (arith, d))
                (omega (arith, d)))
          | no d ↦
              rw (on_status-rejected status resp v a b c d) (rejected (ground arith) a b refl refl)
        ]
      ]
    ]
  ]

  exchange-lost :
      (auth : Auth) (url : Text) (body : R) (w v : W) (e : Text)
      → http.post auth url body w ≡ (err e, v)
      → exchange http map_response auth url body w ≡ (err (network_error e), v)
  unfolding exchange
  exchange-lost auth url body w v e h = rw h refl

  pub exchange-sent :
      (auth : Auth) (url : Text) (body : R) (w v : W) (resp : H)
      → http.post auth url body w ≡ (ok resp, v)
      → exchange http map_response auth url body w
        ≡ on_status http map_response (http.status resp) resp v
  unfolding exchange
  exchange-sent auth url body w v resp h = rw h refl

  ends :
      (auth : Auth) (url : Text) (body : R) (w : W) (x : Result Text H × W)
      → http.post auth url body w ≡ x
      → let (r, w') = exchange http map_response auth url body w in Ending auth url body w r w'
  ends auth url body w (ok resp, v) h =
      rw (exchange-sent auth url body w v resp h)
        (answered resp v h (on_status-Answered resp (http.status resp) v))
  ends auth url body w (err e, v) h =
      rw (exchange-lost auth url body w v e h) (unreachable e h refl)

  -- Every exchange makes one request and ends in one of these ways: the request fails, which is a
  -- network error, or the status of the answer decides. 401 is unauthorized, 429 is rate limited, 5xx
  -- is a server error, without another try, 2xx is what the body gives, and any other status, 403
  -- among them, is an invalid response.
  pub exchange-Ending :
      (auth : Auth) (url : Text) (body : R) (w : W)
      → let (r, w') = exchange http map_response auth url body w in Ending auth url body w r w'
  exchange-Ending auth url body w = ends auth url body w (http.post auth url body w) refl
