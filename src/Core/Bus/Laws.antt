-- ===== src/Core/Bus/Laws.antt =====
-- Which channel a name or a topic of crates/roos-core/src/bus.rs reaches.
use roos.Base.{
  ◌≡◌, ◌≢◌, refl, Text, text_Eq, text_eq, text_eq_iff, none, some, err, Option-cases, Bool-cases,
  inl, inr,
}
use roos.Base.Dict
use roos.Base.Dict.{get-insert}
use roos.Core.Bus.{
  agent_not_found, Channels, RoosAgentBus, register, send, send_to, subscribe, publish, publish_to,
  agent_queue_capacity, broadcast_capacity,
}

module _ {W S V R P B L : Type 0} (channels : Channels W S V R P B L) where
  -- After a registration a send to that name goes to the new queue, also where the name was
  -- registered before, and a send to any other name to where it went. A send to a name that is not
  -- registered returns `AgentNotFound` and does nothing.
  send-register :
      (bus : RoosAgentBus S B) (name agent input : Text) (w v : W)
      → let (rx, bus', w') = register channels name bus w in
        let tx = (channels.mpsc_channel agent_queue_capacity w).0.0 in
        (send channels bus' name input v ≡ send_to channels (some tx) name input v)
        × (name ≢ agent → send channels bus' agent input v ≡ send channels bus agent input v)
        × (Dict.get bus.agents agent ≡ none
            → send channels bus agent input v ≡ (err (agent_not_found agent), v))
  unfolding register send
  send-register bus name agent input w v =
      let tx = (channels.mpsc_channel agent_queue_capacity w).0.0 in
      (
        rw (get-insert bus.agents name name tx, (text_eq_iff name name).1 refl) refl,
        λ ne. elim (Bool-cases (text_eq name agent)) [
          | inl same ↦ absurd (ne ((text_eq_iff name agent).0 same))
          | inr other ↦ rw (get-insert bus.agents name agent tx, other) refl
        ],
        λ absent. rw absent refl,
      )

  -- The second of two subscriptions to a topic changes nothing on the bus, and from the first on an
  -- event that is published on the topic is sent on one channel; before it, publishing reaches no one.
  subscribe-again :
      (bus : RoosAgentBus S B) (topic payload : Text) (w u v : W)
      → let bus' = (subscribe channels topic bus w).1 in
        ((subscribe channels topic bus' u).1 ≡ bus')
        × ((tx : B) × (publish channels bus' topic payload v
              ≡ publish_to channels (some tx) (record { topic = topic; payload = payload }) v))
        × (Dict.get bus.topics topic ≡ none → publish channels bus topic payload v ≡ (0, v))
  unfolding subscribe publish
  subscribe-again bus topic payload w u v =
      let same = (text_eq_iff topic topic).1 refl in
      elim (Option-cases (Dict.get bus.topics topic)) [
        | inl absent ↦
            let tx = (channels.broadcast_channel broadcast_capacity w).0 in
            let found = get-insert bus.topics topic topic tx in
            (
              rw (absent, found, same) refl,
              (tx, rw (absent, found, same) refl),
              λ gone. rw absent refl,
            )
        | inr (tx, found) ↦
            (rw (found, found) refl, (tx, rw (found, found) refl), λ gone. rw gone refl)
      ]
