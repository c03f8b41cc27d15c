-- ===== src/Trigger/Server/Waiting.antt =====
-- What the requests to crates/roos-trigger/src/server.rs make of the recorded runs.
use roos.Base.{◌≡◌, refl, subst, inl, inr, Bool-cases, nat_eq, nat_eq_iff, codes, none, some, ℕ_eq}
use roos.Base.Dict
use roos.Base.Dict.{get-insert}
use roos.Core.Types.{Uuid}
use roos.Trigger.Http.{Request}
use roos.Trigger.Server.{
  TriggerServer, TriggerRequest, AppState, RunRecord, Route, Web, pending, trigger_handler, handle,
}
use roos.Trigger.Server.Paths.{handle-keeps}
use roos.Trigger.Webhook.{Crypto}

-- The run waits: it is pending and has no output.
abbrev pub Waits : {J : Type 0} → RunRecord J → Type 0
Waits run = (run.status ≡ codes "pending") × (run.output ≡ none)

-- Every run that can be found waits.
abbrev pub AllWait : {J G : Type 0} → AppState J G → Type 0
AllWait {J} s = (id : Uuid) (run : RunRecord J) → Dict.get s.runs id ≡ some run → Waits run

-- Each run of the first state has its id in the second.
abbrev pub KeepsIds : {J G : Type 0} → AppState J G → AppState J G → Type 0
KeepsIds {J} s s' =
    (id : Uuid) (run : RunRecord J)
    → Dict.get s.runs id ≡ some run
    → (run' : RunRecord J) × (Dict.get s'.runs id ≡ some run')

-- Each run of the first state is recorded in the second as it was.
abbrev pub KeepsRuns : {J G : Type 0} → AppState J G → AppState J G → Type 0
KeepsRuns {J} s s' =
    (id : Uuid) (run : RunRecord J) → Dict.get s.runs id ≡ some run → Dict.get s'.runs id ≡ some run

module _ {J G : Type 0} (web : Web J G) (s : AppState J G) where
  abbrev Goes : AppState J G → Type 0
  Goes s' = (AllWait s → AllWait s') × KeepsIds s s'

  trigger_handler-Goes : (req : TriggerRequest J) → Goes (trigger_handler web req s).1
  unfolding trigger_handler pending
  trigger_handler-Goes req =
      let new_id = (web.new_v4 s.rng).0 in
      let new_run = pending web new_id req in
      (
        λ waits id run found. elim (Bool-cases (nat_eq new_id id)) [
          | inl same ↦
              let e : some new_run ≡ some run =
                rw (get-insert s.runs new_id id new_run, same) at found in
              let same_run : new_run ≡ run = cc in subst Waits same_run (refl, refl)
          | inr other ↦ waits id run (rw (get-insert s.runs new_id id new_run, other) at found)
        ],
        λ id run found. elim (Bool-cases (nat_eq new_id id)) [
          | inl same ↦ (new_run, rw (get-insert s.runs new_id id new_run, same) refl)
          | inr other ↦ (run, rw (get-insert s.runs new_id id new_run, other) found)
        ],
      )

  -- The next id is not that of a recorded run.
  abbrev pub IsNewId : Type 0
  IsNewId = Dict.get s.runs (web.new_v4 s.rng).0 ≡ none

  trigger_handler-KeepsRuns :
      IsNewId → (req : TriggerRequest J) → KeepsRuns s (trigger_handler web req s).1
  unfolding trigger_handler
  trigger_handler-KeepsRuns new_one req id run found =
      let new_id = (web.new_v4 s.rng).0 in
      elim (Bool-cases (nat_eq new_id id)) [
        | inl same ↦
            let missing : Dict.get s.runs id ≡ none =
              subst (λ k. Dict.get s.runs k ≡ none) ((nat_eq_iff new_id id).0 same) new_one in
            absurd (cc)
        | inr other ↦ rw (get-insert s.runs new_id id (pending web new_id req), other) found
      ]

  module _ {M : Type 0} (crypto : Crypto M) (server : TriggerServer) (route : Route)
      (request : Request) where
    -- No request to the server makes a recorded run leave the state `pending`, gives it an output, or
    -- removes it.
    pub handle-waiting :
        (AllWait s → AllWait (handle web crypto server route request s).1)
        × KeepsIds s (handle web crypto server route request s).1
    handle-waiting =
        handle-keeps web crypto s Goes ((λ waits. waits), λ id run found. (run, found))
          trigger_handler-Goes request server route

    -- No request to the server removes or changes a recorded run, if the next id is new.
    pub handle-KeepsRuns : IsNewId → KeepsRuns s (handle web crypto server route request s).1
    handle-KeepsRuns new_one =
        handle-keeps web crypto s (KeepsRuns s) (λ id run found. found)
          (trigger_handler-KeepsRuns new_one) request server route
