-- ===== src/Bridge/System.antt =====
-- The goroutines of bridges/mqtt-go/bridge.go side by side: the handler of messages, the jobs of
-- startIndefinite, those of scheduleFiniteRetransmits, mcastReceiveLoop, and Run once it waits for
-- its context to end. They interleave in any order, and paho calls one handler at a time, as it
-- does where SetOrderMatters is left at true. The handler may be called before the receive loop is
-- there: that is a receive loop that has not taken a step. What a process does that a ticker for no
-- time at all has ended is not in the steps. `published` keeps what Publish is given, as its bytes
-- are at the call. A plaintext payload is a slice of the buffer that the next Read fills (wire.go and
-- bridge.go make no copy), and Publish does not wait for the broker, so what goes out there may be
-- other bytes: paho's side is not in the steps.
pub mod Steps
pub mod Invariant
pub mod Origin
pub mod Stopping
pub mod Ending
pub mod Receiving
use esphome_mpubsub.Base.{ℕ, ◌==◌, Bool, true, false, if◌then◌else◌}
use esphome_mpubsub.Base.{List, [], ◌∷◌, map, Bytes}
use esphome_mpubsub.Wire.Address.{topic_to_group}
use esphome_mpubsub.Proto.Value.{Floats}
use esphome_mpubsub.Json.{JsonLib}
use esphome_mpubsub.Config.{MqttConfig, MpubsubConfig, BridgeEntry}
use esphome_mpubsub.Bridge.{Route, register, Publish, publish_of, receive}
use esphome_mpubsub.Bridge.Startup.{Subscription, mpubsub_topic_of}
use esphome_mpubsub.Bridge.Startup.Entries.{subscriptions_of}
use esphome_mpubsub.Bridge.Retransmission.{Count, effective_retransmit_count, Jobs, start}
use esphome_mpubsub.Bridge.Handling.{Datagram, count_of}
use esphome_mpubsub.Bridge.Handling.Across.{json_of}

-- What a bridge has once it runs, with the libraries that it calls; `bridges` are the entries of its
-- configuration.
pub record Environment : Type 0 where
  pub lib : JsonLib
  pub fl : Floats
  pub sha256 : Bytes → Bytes
  pub mqtt : MqttConfig
  pub cfg : MpubsubConfig
  pub scope : ℕ
  pub bridges : List BridgeEntry

-- The subscriptions and the routes that Run makes of the entries.
abbrev pub subscriptions_in : Environment → List Subscription
subscriptions_in env =
    subscriptions_of (if env.cfg.promote_qos then 2 else env.mqtt.qos) env.bridges

abbrev pub routes_in : Environment → List (ℕ × List Route)
routes_in env = register env.bridges []

-- A message from the broker, with the subscription whose handler gets it.
pub record Message : Type 0 where
  pub subscription : Subscription
  pub topic : Bytes
  pub payload : Bytes
  pub qos : ℕ

-- What handleMQTTMessage works with once the packet is encoded.
pub record Work : Type 0 where
  pub topic : Bytes
  pub datagram : Datagram
  pub count : Count

-- Where the handler is: not called, called with a message, before cancelIndefinite, before the first
-- SendTo, behind it.
pub data Handler : Type 0 where
  waiting : Handler
  called : Message → Handler
  encoded cancelled sent : Work → Handler

-- A goroutine of startIndefinite.
pub data Loop : Type 0 where
  unborn : Loop
  looping : Datagram → Loop
  returned : Loop

-- A goroutine of scheduleFiniteRetransmits, with the sends that are left.
pub record Burst : Type 0 where
  pub datagram : Datagram
  pub left : ℕ

-- Where Run is: before the end of its context, and behind each of its last calls.
pub data Phase : Type 0 where
  serving stopping jobs_closed socket_closed disconnected finished : Phase

-- Where mcastReceiveLoop is: before the test of the context, in Read, behind it with the bytes that
-- it gave, or behind the loop.
pub data Receiver : Type 0 where
  checking reading ended : Receiver
  holding : Bytes → Receiver

-- `ctx.Err() == nil`
abbrev pub is_serving : Phase → Bool
is_serving serving = true
is_serving _ = false

abbrev pub socket_open : Phase → Bool
socket_open serving = true
socket_open stopping = true
socket_open jobs_closed = true
socket_open _ = false

-- Whether the broker may still deliver a message.
abbrev pub is_connected : Phase → Bool
is_connected disconnected = false
is_connected finished = false
is_connected _ = true

-- A loop has the number of its channel. `wire` are the datagrams that were sent, the last one
-- first, and `published` is what was published to MQTT, the last round first. `delivered` are the
-- messages that the broker delivered and `datagrams` those that Read gave, the last one first.
pub record System : Type 0 where
  pub jobs : Jobs
  pub loops : ℕ → Loop
  pub bursts : List Burst
  pub handler : Handler
  pub phase : Phase
  pub receiver : Receiver
  pub wire : List Datagram
  pub published : List Publish
  pub delivered : List Message
  pub datagrams : List Bytes

abbrev pub update {ℓ} : {A : Type ℓ} → (ℕ → A) → ℕ → A → ℕ → A
update f i a j = if j == i then a else f j

abbrev pub on_wire : Datagram → System → System
on_wire d st = record st { wire = d ∷ st.wire }

abbrev pub work_of : Environment → Message → Bytes → Work
work_of env m pkt =
    let topic = mpubsub_topic_of m.subscription.entry m.topic in
    record {
      topic = topic;
      datagram = (topic_to_group env.sha256 topic env.scope, pkt);
      count =
          effective_retransmit_count env.cfg.promote_qos (count_of env.cfg.retransmit_count) m.qos;
    }

-- What the receive loop publishes of the bytes of a Read.
abbrev pub round : Environment → Bytes → List Publish
round env received =
    map (publish_of env.mqtt)
      (receive (json_of env.lib env.fl) (routes_in env) env.cfg.encryption_key received)

abbrev pub begin : System
begin = record {
  jobs = start;
  loops = λ (c : ℕ). unborn;
  bursts = [];
  handler = waiting;
  phase = serving;
  receiver = checking;
  wire = [];
  published = [];
  delivered = [];
  datagrams = [];
}
