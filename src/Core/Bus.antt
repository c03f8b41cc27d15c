-- ===== src/Core/Bus.antt =====
-- crates/roos-core/src/bus.rs: the registry of agents and topics. Tokio's channels are the parameter
-- `channels`; the lock around each map is not modelled, since each method holds it for one map
-- operation.
pub mod Laws
use roos.Base.{ℕ, Text, text_Eq, codes, Option, none, some, Result, ok, err, ◌++◌}
use roos.Base.Action.{Action, throw, ◌>>=◌, ◌>>◌}
use roos.Base.Dict
use roos.Base.Dict.{Dict}

-- `R` is the sending end of a reply channel.
pub record BusMessage (R : Type 0) : Type 0 where
  pub input : Text
  pub reply_tx : R

pub record BusEvent : Type 0 where
  pub topic : Text
  pub payload : Text

pub data BusError : Type 0 where
  agent_not_found : Text → BusError
  send_error : BusError
  recv_error : BusError

unfoldable pub display : BusError → Text
unfolding codes
display (agent_not_found name) = codes "agent not found on bus: " ++ name
display send_error = codes "failed to deliver task to agent"
display recv_error = codes "agent did not send a reply"

abbrev pub agent_queue_capacity : ℕ
agent_queue_capacity = 32

abbrev pub broadcast_capacity : ℕ
broadcast_capacity = 16

-- Tokio's channels in the world `W`: `S` and `V` are the ends of a task queue, `R` and `P` those of a
-- reply channel, `B` and `L` a broadcast sender and a listener. An `await` that fails returns `err`.
pub record Channels (W S V R P B L : Type 0) : Type 0 where
  pub mpsc_channel : ℕ → W → (S × V) × W
  pub mpsc_send : S → BusMessage R → Action W (Unit {0}) (Unit {0})
  pub oneshot_channel : W → (R × P) × W
  pub oneshot_recv : P → Action W (Unit {0}) Text
  pub broadcast_channel : ℕ → W → B × W
  pub broadcast_subscribe : B → W → L × W
  -- the number of receivers, or an error if there is none
  pub broadcast_send : B → BusEvent → W → Result (Unit {0}) ℕ × W

pub record RoosAgentBus (S B : Type 0) : Type 0 where
  pub agents : Dict Text S
  pub topics : Dict Text B

abbrev pub new : {S B : Type 0} → RoosAgentBus S B
new = record { agents = Dict.empty; topics = Dict.empty }

abbrev pub unwrap_or_zero : Result (Unit {0}) ℕ → ℕ
unwrap_or_zero (ok n) = n
unwrap_or_zero (err _) = 0

module _ {W S V R P B L : Type 0} (channels : Channels W S V R P B L) where
  unfoldable pub register : Text → RoosAgentBus S B → W → V × RoosAgentBus S B × W
  register name bus w =
      let ((tx, rx), w') = channels.mpsc_channel agent_queue_capacity w in
      (rx, record bus { agents = Dict.insert bus.agents name tx }, w')

  abbrev pub received : Result (Unit {0}) Text × W → Result BusError Text × W
  received (ok reply, w) = (ok reply, w)
  received (err _, w) = (err recv_error, w)

  abbrev pub delivered : P → Result (Unit {0}) (Unit {0}) × W → Result BusError Text × W
  delivered reply_rx (ok _, w) = received (channels.oneshot_recv reply_rx w)
  delivered reply_rx (err _, w) = (err send_error, w)

  abbrev pub send_to : Option S → Text → Text → Action W BusError Text
  send_to none agent input w = (err (agent_not_found agent), w)
  send_to (some tx) agent input w =
      let ((reply_tx, reply_rx), w') = channels.oneshot_channel w in
      delivered reply_rx (channels.mpsc_send tx (record { input = input; reply_tx = reply_tx }) w')

  unfoldable pub send : RoosAgentBus S B → Text → Text → Action W BusError Text
  send bus agent input = send_to (Dict.get bus.agents agent) agent input

  -- `entry(topic).or_insert_with(…)`
  abbrev pub topic_or_new : Option B → Text → RoosAgentBus S B → W → B × RoosAgentBus S B × W
  topic_or_new (some tx) topic bus w = (tx, bus, w)
  topic_or_new none topic bus w =
      let (tx, w') = channels.broadcast_channel broadcast_capacity w in
      (tx, record bus { topics = Dict.insert bus.topics topic tx }, w')

  unfoldable pub subscribe : Text → RoosAgentBus S B → W → L × RoosAgentBus S B × W
  subscribe topic bus w =
      let (tx, bus', w') = topic_or_new (Dict.get bus.topics topic) topic bus w in
      let (rx, w'') = channels.broadcast_subscribe tx w' in (rx, bus', w'')

  abbrev pub publish_to : Option B → BusEvent → W → ℕ × W
  publish_to none event w = (0, w)
  publish_to (some tx) event w =
      let (r, w') = channels.broadcast_send tx event w in (unwrap_or_zero r, w')

  unfoldable pub publish : RoosAgentBus S B → Text → Text → W → ℕ × W
  publish bus topic payload =
      publish_to (Dict.get bus.topics topic) (record { topic = topic; payload = payload })
