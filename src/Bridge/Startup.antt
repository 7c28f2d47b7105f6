-- ===== src/Bridge/Startup.antt =====
-- Run of bridges/mqtt-go/bridge.go up to its receive loop: the connection, and for each entry the
-- subscription or the group and the route.
pub mod Entries
pub mod Registered
use esphome_mpubsub.Base.{
  ℕ, Bool, true, false, not, if◌then◌else◌, List, [], ◌∷◌, ◌++◌, Bytes, ◌=ᵇ◌, Option, none, some,
  Result, ok, err, ◌>>=◌,
}
use esphome_mpubsub.Wire.Address.{parse_scope, topic_to_group}
use esphome_mpubsub.Wire.Packet.{WireError}
use esphome_mpubsub.Config.{
  Direction, mqtt_to_mpubsub, mpubsub_to_mqtt, unknown_direction, MpubsubConfig, BridgeEntry,
}
use esphome_mpubsub.Socket.{Kernel, SocketError, MulticastSocket, join, open_multicast_socket}
use esphome_mpubsub.Bridge.{Route, add_route}

-- The answers of the broker: whether it takes the connection, and a subscription to a topic.
pub record Broker : Type 0 where
  pub connects : Bool
  pub subscribes : Bytes → ℕ → Bool

pub data RunError : Type 0 where
  not_connected : RunError
  not_subscribed : Bytes → RunError
  not_joined : SocketError → RunError

-- What NewBridge fails with.
pub data InitError : Type 0 where
  bad_scope : WireError → InitError
  no_socket : SocketError → InitError

-- A subscription, with the entry that its handler captures.
pub record Subscription : Type 0 where
  pub topic : Bytes
  pub qos : ℕ
  pub entry : BridgeEntry

pub record Started : Type 0 where
  pub subscriptions : List Subscription
  pub socket : MulticastSocket
  pub crc_to_mqtt : List (ℕ × List Route)

-- The QoS of the subscriptions.
unfoldable pub sub_qos : Bool → ℕ → ℕ
sub_qos promote qos = if promote then 2 else qos

-- The topic of a message in the handler of an entry.
unfoldable pub mpubsub_topic_of : BridgeEntry → Bytes → Bytes
mpubsub_topic_of e topic = if e.mpubsub_topic =ᵇ [] then topic else e.mpubsub_topic

abbrev pub socket_or :
    ℕ → Result SocketError MulticastSocket → Result InitError (ℕ × MulticastSocket)
socket_or scope (ok m) = ok (scope, m)
socket_or scope (err e) = err (no_socket e)

-- NewBridge up to the options of the MQTT client.
unfoldable pub new_bridge : Kernel → MpubsubConfig → Result InitError (ℕ × MulticastSocket)
new_bridge k cfg = elim (parse_scope cfg.scope) [
  | err e ↦ err (bad_scope e)
  | ok scope ↦ socket_or scope (open_multicast_socket k cfg).1
]

abbrev pub joined_or : Result SocketError MulticastSocket → Result RunError MulticastSocket
joined_or (ok m) = ok m
joined_or (err e) = err (not_joined e)

abbrev pub subscription : ℕ → BridgeEntry → Subscription
subscription qos e = record { topic = e.mqtt_topic; qos = qos; entry = e }

module _ (k : Kernel) (broker : Broker) (sha256 : Bytes → Bytes) (scope qos : ℕ) where
  -- One round of the loop over the entries; `qos` is that of the subscriptions.
  unfoldable pub subscribe : BridgeEntry → Started → Result RunError Started
  subscribe e st =
      if not (broker.subscribes e.mqtt_topic qos)
      then err (not_subscribed e.mqtt_topic)
      else ok (record {
        subscriptions = st.subscriptions ++ subscription qos e ∷ [];
        socket = st.socket;
        crc_to_mqtt = st.crc_to_mqtt;
      })

  unfoldable pub listen_to : BridgeEntry → Started → Result RunError Started
  listen_to e st = do
    m ← joined_or (join k (topic_to_group sha256 e.mpubsub_topic scope) st.socket)
    ok (record {
      subscriptions = st.subscriptions;
      socket = m;
      crc_to_mqtt = add_route e st.crc_to_mqtt;
    })

  abbrev pub start_way : Direction → BridgeEntry → Started → Result RunError Started
  start_way mqtt_to_mpubsub e st = subscribe e st
  start_way mpubsub_to_mqtt e st = listen_to e st
  start_way (unknown_direction d) e st = ok st

  unfoldable pub start_entries : List BridgeEntry → Started → Result RunError Started
  start_entries [] st = ok st
  start_entries (e ∷ es) st = do next ← start_way e.direction e st; start_entries es next

  -- Run from the socket that NewBridge opened.
  unfoldable pub run : List BridgeEntry → MulticastSocket → Result RunError Started
  run es m =
      if not broker.connects
      then err not_connected
      else start_entries es (record { subscriptions = []; socket = m; crc_to_mqtt = [] })
