-- ===== src/Cli/Serve/Joint.antt =====
-- That `serving` of crates/roos-cli/src/cmd/serve.rs, which has the three tasks of a service as one,
-- shows what the three tasks show.
use roos.Base.{◌≡◌, refl, ap, List, [], ◌∷◌, Result}
use roos.Scheduler.Backend.{Backend}
use roos.Trigger.Http.{StatusCode}
use roos.Trigger.Server.{Response, Web, handle}
use roos.Trigger.Server.Serve.{answers}
use roos.Trigger.Webhook.{Crypto}
use roos.Cli.Serve.{
  Service, Event, request, second_passed, sigint, sigterm, sighup, Shown, answered, tasks_due,
  reloading, shutting_down, tick, brought, looks, handle_signals, answer, step, serving,
}

-- The answers among what a service shows.
unfoldable answers_shown : {J : Type 0} → List (Shown J) → List (Result StatusCode (Response J))
answers_shown [] = []
answers_shown (answered r ∷ shown) = r ∷ answers_shown shown
answers_shown (tasks_due due ∷ shown) = answers_shown shown
answers_shown (reloading ∷ shown) = answers_shown shown
answers_shown (shutting_down ∷ shown) = answers_shown shown

-- The looks at the scheduler among it.
unfoldable looks_shown : {J : Type 0} → List (Shown J) → List (Shown J)
looks_shown [] = []
looks_shown (answered r ∷ shown) = looks_shown shown
looks_shown (tasks_due due ∷ shown) = tasks_due due ∷ looks_shown shown
looks_shown (reloading ∷ shown) = looks_shown shown
looks_shown (shutting_down ∷ shown) = looks_shown shown

-- The signals among it.
unfoldable signals_shown : {J : Type 0} → List (Shown J) → List (Shown J)
signals_shown [] = []
signals_shown (answered r ∷ shown) = signals_shown shown
signals_shown (tasks_due due ∷ shown) = signals_shown shown
signals_shown (reloading ∷ shown) = reloading ∷ signals_shown shown
signals_shown (shutting_down ∷ shown) = shutting_down ∷ signals_shown shown

module _ {D B S T J G M : Type 0} (backend : Backend D B S T) (web : Web J G)
    (crypto : Crypto M) where
  -- What each of the three tasks shows, in its order, is what `serving` shows of it.
  serving-tasks :
      (events : List (Event T)) (service : Service D J G)
      → let shown = serving backend web crypto events service in
        (answers_shown shown ≡ (answers web crypto service.server (brought events) service.state).0)
        × (looks_shown shown ≡ looks backend service.scheduler events)
        × (signals_shown shown ≡ handle_signals events)
  unfolding serving step answer answers_shown looks_shown signals_shown brought answers looks
      handle_signals
  serving-tasks [] service = (refl, refl, refl)
  serving-tasks (request route req ∷ events) service =
      let (same, same_looks, same_signals) =
        serving-tasks events (answer web crypto route req service).1 in
      (
        ap (λ rs. (handle web crypto service.server route req service.state).0 ∷ rs) same,
        same_looks,
        same_signals,
      )
  serving-tasks (second_passed now ∷ events) service =
      let (same, same_looks, same_signals) = serving-tasks events service in
      (same, ap (λ l. tasks_due (tick backend now service.scheduler) ∷ l) same_looks, same_signals)
  serving-tasks (sighup ∷ events) service =
      let (same, same_looks, same_signals) = serving-tasks events service in
      (same, same_looks, ap (λ l. reloading ∷ l) same_signals)
  serving-tasks (sigint ∷ events) service = (refl, refl, refl)
  serving-tasks (sigterm ∷ events) service = (refl, refl, refl)
