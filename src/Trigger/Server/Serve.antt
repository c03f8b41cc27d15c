-- ===== src/Trigger/Server/Serve.antt =====
-- `serve` and `serve_with_shutdown` of crates/roos-trigger/src/server.rs. What the listener brings is
-- a list, in the order in which it is handled: requests, and `none` for the signal to shut down.
use roos.Base.{Text, Option, none, some, List, [], ◌∷◌, map, Result, ok, err}
use roos.Trigger.Http.{Request, StatusCode}
use roos.Trigger.Server.{TriggerServer, AppState, Response, Route, Web, handle}
use roos.Trigger.Webhook.{Crypto}

module _ {J G M : Type 0} (web : Web J G) (crypto : Crypto M) (server : TriggerServer) where
  -- The answers, and the state behind them. No request is taken after the signal.
  unfoldable pub answers :
      List (Option (Route × Request))
      → AppState J G
      → List (Result StatusCode (Response J)) × AppState J G
  answers [] state = ([], state)
  answers (none ∷ brought) state = ([], state)
  answers (some (route, request) ∷ brought) state =
      let (r, state') = handle web crypto server route request state in
      let (rest, state'') = answers brought state' in (r ∷ rest, state'')

  abbrev pub listening :
      Result Text (Unit {0})
      → List (Option (Route × Request))
      → AppState J G
      → Result Text (List (Result StatusCode (Response J))) × AppState J G
  listening (err e) brought state = (err e, state)
  listening (ok listener) brought state =
      let (rs, state') = answers brought state in (ok rs, state')

  module _ (bind : Text → Result Text (Unit {0})) (addr : Text) where
    unfoldable pub serve_with_shutdown :
        List (Option (Route × Request))
        → AppState J G
        → Result Text (List (Result StatusCode (Response J))) × AppState J G
    unfolding answers
    serve_with_shutdown brought state = listening (bind addr) brought state

    -- Nothing shuts it down.
    unfoldable pub serve :
        List (Route × Request)
        → AppState J G
        → Result Text (List (Result StatusCode (Response J))) × AppState J G
    unfolding answers
    serve requests state = listening (bind addr) (map some requests) state
