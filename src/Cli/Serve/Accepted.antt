-- ===== src/Cli/Serve/Accepted.antt =====
-- What becomes of a run that crates/roos-cli/src/cmd/serve.rs accepts.
use roos.Base.{◌≡◌, refl, sym, ap, subst, Text, text_Eq, some, ok, Result, nat_eq_iff, ℕ_eq}
use roos.Base.Dict
use roos.Base.Dict.{get-insert}
use roos.Core.Types.{Uuid, IsUuid}
use roos.Scheduler.Backend.{Backend}
use roos.Trigger.Http.{Request, StatusCode}
use roos.Trigger.Server.{
  AppState, TriggerRequest, Response, RunRecord, accepted, found, to_trigger, Web, pending,
  trigger_handler, runs_handler, run_found, map_found, handle,
}
use roos.Trigger.Server.Paths.{trigger-keeps}
use roos.Trigger.Server.Waiting.{IsNewId, KeepsRuns, handle-KeepsRuns}
use roos.Trigger.Webhook.{Crypto}
use roos.Cli.Serve.{
  Service, Event, request, second_passed, sigint, sigterm, sighup, answered, step, answer,
}
use roos.Cli.Serve.Lasting.{Reached, here, after}

module _ {J G : Type 0} (web : Web J G) where
  -- An acceptance records the pending run of the request under a new id and answers with that id.
  abbrev pub IsAcceptance :
      AppState J G → Request → Text → Result StatusCode (Response J) × AppState J G → Type 0
  IsAcceptance s asked text (r, s') =
      r ≡ ok (accepted text)
      → (req : TriggerRequest J) × (web.json asked ≡ ok req)
        × (text ≡ web.to_string (web.new_v4 s.rng).0)
        × (s' ≡ (trigger_handler web req s).1)

  trigger_handler-IsAcceptance :
      (s : AppState J G) (asked : Request) (text : Text) (req : TriggerRequest J)
      → web.json asked ≡ ok req
      → IsAcceptance s asked text (trigger_handler web req s)
  unfolding trigger_handler
  trigger_handler-IsAcceptance s asked text req read h = (req, read, cc, refl)

  -- The record of a run in the state, and the answer of `/runs/:id`.
  recorded-found :
      (s : AppState J G) (id : Uuid) (run : RunRecord J)
      → web.parse (web.to_string id) ≡ some id
      → Dict.get s.runs id ≡ some run
      → runs_handler web (web.to_string id) s ≡ (ok (found run), s)
  unfolding runs_handler
  recorded-found s id run law h =
      let is_there : run_found web (web.parse (web.to_string id)) s ≡ ok run = rw (law, h) refl in
      ap (λ r. (map_found r, s)) is_there

module _ {D B S T J G M : Type 0} (backend : Backend D B S T) (web : Web J G)
    (crypto : Crypto M) where
  -- At each service on the way the next id is not that of a recorded run.
  abbrev pub NewIds :
      {first service : Service D J G} → Reached backend web crypto first service → Type 0
  NewIds here = Unit
  NewIds (after {first} {service} {next} event path h) = NewIds path × IsNewId web service.state

  step-KeepsRuns :
      (event : Event T) (service next : Service D J G)
      → (step backend web crypto event service).1 ≡ some next
      → IsNewId web service.state
      → KeepsRuns service.state next.state
  unfolding step answer
  step-KeepsRuns (request route req) service next h new_one =
      let after_request : (answer web crypto route req service).1 ≡ next = cc in
      subst (λ v. KeepsRuns service.state v.state) after_request
        (handle-KeepsRuns web service.state crypto service.server route req new_one)
  step-KeepsRuns (second_passed now) service next h new_one =
      let same : service ≡ next = cc in
      subst (λ v. KeepsRuns service.state v.state) same (λ id run found. found)
  step-KeepsRuns sighup service next h new_one =
      let same : service ≡ next = cc in
      subst (λ v. KeepsRuns service.state v.state) same (λ id run found. found)
  step-KeepsRuns sigint service next h new_one = absurd (cc)
  step-KeepsRuns sigterm service next h new_one = absurd (cc)

  reached-KeepsRuns :
      {first service : Service D J G} (path : Reached backend web crypto first service)
      → NewIds path
      → KeepsRuns first.state service.state
  reached-KeepsRuns here new_ids id run there = there
  reached-KeepsRuns (after {first} {service} {next} event path h) (new_ids, new_one) id run there =
      step-KeepsRuns event service next h new_one id run
        (reached-KeepsRuns path new_ids id run there)

  -- If a service accepts a `/trigger` request with an id, then the body of the request was
  -- read, and in every service that is reached after that, `/runs` with this id answers with the run
  -- that was recorded then: with this id, for the agent of the request, pending and without output.
  -- The conditions: `uuid` draws numbers of 128 bits and parses what it prints of them, and on the way
  -- from the one service to the other it never draws the id of a recorded run.
  pub accepted-found :
      ((id : Uuid) → IsUuid id → web.parse (web.to_string id) ≡ some id)
      → ((rng : G) → IsUuid (web.new_v4 rng).0)
      → (service : Service D J G) (req : Request) (text : Text) {next later : Service D J G}
      → answer web crypto to_trigger req service ≡ (answered (ok (accepted text)), next)
      → (path : Reached backend web crypto next later) → NewIds path
      → (id : Uuid) × (body : TriggerRequest J) × (web.json req ≡ ok body)
        × (text ≡ web.to_string id)
        × (runs_handler web text later.state ≡ (ok (found (pending web id body)), later.state))
  unfolding answer trigger_handler
  accepted-found law bits service req text {next} {later} granted path new_ids =
      let id = (web.new_v4 service.state.rng).0 in
      let accepts : (handle web crypto service.server to_trigger req service.state).0
          ≡ ok (accepted text) =
        cc in
      let goes : (handle web crypto service.server to_trigger req service.state).1 ≡ next.state =
        ap (λ x. x.1.state) granted in
      let (body, read, named, stored) =
        trigger-keeps web crypto service.state (IsAcceptance web service.state req text)
          (λ e h. absurd (cc)) req (trigger_handler-IsAcceptance web service.state req text)
          service.server accepts in
      let recorded : Dict.get next.state.runs id ≡ some (pending web id body) =
        rw
          (
            sym goes,
            stored,
            get-insert service.state.runs id id (pending web id body),
            (nat_eq_iff id id).1 refl,
          )
          refl in
      let kept = reached-KeepsRuns path new_ids id _ recorded in
      let answer_of = λ (t : Text).
        runs_handler web t later.state ≡ (ok (found (pending web id body)), later.state) in
      let law_of_id = law id (bits service.state.rng) in
      (
        id,
        body,
        read,
        named,
        subst answer_of (sym named) (recorded-found web later.state id _ law_of_id kept),
      )
