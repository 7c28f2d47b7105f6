-- ===== src/Bridge.antt =====
-- bridges/mqtt-go/bridge.go: the routes of the bridge, its receive loop and its publish path.
-- The MQTT client and the socket are what the lists of publishes and of datagrams stand for.
pub mod Routing
pub mod Startup
pub mod Handling
pub mod Delivery
pub mod System
pub mod Retransmission
use esphome_mpubsub.Base.{
  ℕ, ◌+◌, ◌*◌, ◌^◌, ◌/◌, ◌%◌, bit_or, Bool, true, false, not, ◌&&◌, ◌==◌, ltb, leb, if◌then◌else◌,
}
use esphome_mpubsub.Base.{
  List, [], ◌∷◌, ◌++◌, Bytes, length, drop, get_or, lit, ◌=ᵇ◌, Option, none, some, Result, ok, err,
}
use esphome_mpubsub.Base.Maps.{nat_eq, lookup, insert}
use esphome_mpubsub.Wire.Packet.{
  DecodedPacket, decode_packet, encode_packet, encoding_raw, encoding_proto, topic_crc32,
}
use esphome_mpubsub.Schema.{Schema}
use esphome_mpubsub.Config.{
  Direction, mqtt_to_mpubsub, mpubsub_to_mqtt, unknown_direction, MqttConfig, BridgeEntry,
}

-- The entries that Run registers for the way to MQTT.
abbrev pub to_mqtt : Direction → Bool
to_mqtt mqtt_to_mpubsub = false
to_mqtt mpubsub_to_mqtt = true
to_mqtt (unknown_direction d) = false

pub record Route : Type 0 where
  pub mqtt_topic : Bytes
  pub require_encryption : Bool
  pub schema : Option Schema

-- `b.crcToMQTT[crc]`: nil, which is empty, where there is no entry.
unfoldable pub routes_for : ℕ → List (ℕ × List Route) → List Route
routes_for crc table = elim (lookup crc table) [ none ↦ [] | some rs ↦ rs ]

abbrev pub route_of : BridgeEntry → Route
route_of e = record {
  mqtt_topic = e.mqtt_topic;
  require_encryption = e.require_encryption;
  schema = e.schema_ptr;
}

-- What Run does with one entry for the routes.
unfoldable pub add_route : BridgeEntry → List (ℕ × List Route) → List (ℕ × List Route)
add_route e table =
    let crc = topic_crc32 e.mpubsub_topic in
    if to_mqtt e.direction
    then insert crc (routes_for crc table ++ route_of e ∷ []) table
    else table

unfoldable pub register : List BridgeEntry → List (ℕ × List Route) → List (ℕ × List Route)
register [] table = table
register (e ∷ es) table = register es (add_route e table)

-- The SCHEMA_ID and the body of a PROTO packet; `none` drops the packet.
unfoldable pub split_proto : DecodedPacket → Option (ℕ × Bytes)
split_proto p =
    if p.encoding == encoding_proto
    then if ltb (length p.payload) 2
      then none
      else some (bit_or (get_or p.payload 0 0) (get_or p.payload 1 0 * 2 ^ 8), drop 2 p.payload)
    else some (0, [])

-- What b.mqtt.Publish is given.
pub record Publish : Type 0 where
  pub topic : Bytes
  pub qos : ℕ
  pub retain : Bool
  pub payload : Bytes

-- A topic and a payload with `cfg.MQTT.QoS` and `cfg.MQTT.Retain`.
unfoldable pub publish_of : MqttConfig → Bytes × Bytes → Publish
publish_of mqtt (topic, payload) = record {
  topic = topic;
  qos = mqtt.qos;
  retain = mqtt.retain;
  payload = payload;
}

-- ProtoToJSON is a parameter here; `none` is its error.
module _ (proto_to_json : Schema → Bytes → Option Bytes) where
  -- What one route publishes, if anything.
  unfoldable pub route_payload : DecodedPacket → ℕ → Bytes → Route → Option Bytes
  route_payload p sid body r =
      if r.require_encryption && not p.was_encrypted then none else elim r.schema [
        | none ↦
            if p.encoding == encoding_raw
            then some p.payload
            else if p.encoding == encoding_proto
            then none
            else some []
        | some s ↦
            if not (p.encoding == encoding_proto)
            then none
            else if not (sid == s.sid)
            then none
            else proto_to_json s body
      ]

  -- The loop over the routes, with the topic and the payload of each publish. The QoS and the Retain
  -- flag that Publish is given with them are not of the route: `publish_of` adds them.
  unfoldable pub forward : DecodedPacket → ℕ → Bytes → List Route → List (Bytes × Bytes)
  forward p sid body [] = []
  forward p sid body (r ∷ rs) =
      let rest = forward p sid body rs in
      elim (route_payload p sid body r) [
        | none ↦ rest
        | some payload ↦ (r.mqtt_topic, payload) ∷ rest
      ]

  unfoldable pub dispatch : List (ℕ × List Route) → DecodedPacket → List (Bytes × Bytes)
  dispatch table p =
      let rs = routes_for p.topic_crc table in
      if length rs == 0
      then []
      else elim (split_proto p) [ none ↦ [] | some (sid, body) ↦ forward p sid body rs ]

  -- One round of mcastReceiveLoop, on a datagram that was read.
  unfoldable pub receive : List (ℕ × List Route) → Option Bytes → Bytes → List (Bytes × Bytes)
  receive table key received = elim (decode_packet received key) [
    | err e ↦ []
    | ok p ↦ dispatch table p
  ]
