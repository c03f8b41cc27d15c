-- ===== src/Core/Supervisor/Replies.antt =====
-- Which workers the supervisor of crates/roos-core/src/supervisor.rs reaches, and what it answers.
use roos.Base.{
  ◌≡◌, refl, arith, Text, List, [], ◌∷◌, ◌++◌, ok, err, raised, Result-cases, subst, inl, inr,
}
use roos.Core.Bus
use roos.Core.Bus.{Channels, RoosAgentBus, BusError}
use roos.Core.Error.{provider_error}
use roos.Core.Supervisor.{report, dispatch}
use roos.Core.Supervisor.Subtasks.{Subtask}

module _ {W S V R P B L : Type 0} (channels : Channels W S V R P B L) (bus : RoosAgentBus S B) where
  -- Every subtask was sent to its worker, one after another from the world `w` to the world `w'`, and
  -- the lines are the workers' replies.
  abbrev pub AllReplied : List Subtask → List Text → W → W → Type 0
  AllReplied [] [] w w' = w ≡ w'
  AllReplied [] (line ∷ lines) w w' = ⊥
  AllReplied (st ∷ sts) [] w w' = ⊥
  AllReplied (st ∷ sts) (line ∷ lines) w w' =
      (reply : Text) × (v : W) × (Bus.send channels bus st.agent st.task w ≡ (ok reply, v))
      × (line ≡ report st reply)
      × AllReplied sts lines v w'

  -- A dispatch that succeeds has sent every subtask to its worker, in order, and its lines are the
  -- workers' replies.
  dispatch-AllReplied :
      (sts : List Subtask) (lines : List Text) (w w' : W)
      → dispatch channels bus sts w ≡ (ok lines, w')
      → AllReplied sts lines w w'
  unfolding dispatch
  dispatch-AllReplied [] [] w w' h = cc
  dispatch-AllReplied [] (line ∷ lines) w w' h = absurd (cc)
  dispatch-AllReplied (st ∷ sts) lines w w' h =
      let q = Bus.send channels bus st.agent st.task w in
      elim (Result-cases q.0) [
        | inl (reply, e) ↦
            let rest = dispatch channels bus sts q.1 in
            elim (Result-cases rest.0) [
              | inl (replies, f) ↦
                  let same_lines : report st reply ∷ replies ≡ lines = ground arith in
                  let sent : q ≡ (ok reply, q.1) = ground arith in
                  let replied : rest ≡ (ok replies, w') = ground arith in
                  subst (λ l. AllReplied (st ∷ sts) l w w') same_lines
                    (reply, q.1, sent, refl, dispatch-AllReplied sts replies q.1 w' replied)
              | inr (fault, f) ↦ absurd (ground arith)
            ]
        | inr (fault, e) ↦ absurd (ground arith)
      ]

  -- When the workers of the first subtasks reply and the next cannot be reached, the supervisor
  -- fails with that error and sends no later subtask.
  dispatch_stops :
      (sts later : List Subtask) (st : Subtask) (lines : List Text) (w v w' : W) (e : BusError)
      → AllReplied sts lines w v
      → Bus.send channels bus st.agent st.task v ≡ (err e, w')
      → dispatch channels bus (sts ++ (st ∷ later)) w
        ≡ (err (raised (provider_error (Bus.display e))), w')
  unfolding dispatch
  dispatch_stops [] later st [] w v w' e h k = ground arith
  dispatch_stops [] later st (line ∷ lines) w v w' e h k = absurd h
  dispatch_stops (s ∷ sts) later st [] w v w' e h k = absurd h
  dispatch_stops (s ∷ sts) later st (line ∷ lines) w v w' e (reply, u, sent, same, rest) k =
      let tail = dispatch_stops sts later st lines u v w' e rest k in ground arith
