-- ===== src/Bridge/Handling.antt =====
-- handleMQTTMessage of bridges/mqtt-go/bridge.go: the packet of a message, its first send, and the
-- sends that follow it. What each SendTo returns is a parameter.
pub mod Sending
pub mod Delay
pub mod Across
use esphome_mpubsub.Base.{
  ℕ, ℤ, pos, negsuc, zero, suc, ◌+◌, ◌-◌, ◌/◌, ◌%◌, ◌^◌, ◌==◌, ltb, Bool, true, false, not,
  if◌then◌else◌,
}
use esphome_mpubsub.Base.{
  List, [], ◌∷◌, Bytes, Option, none, some, Result, ok, err, ◌>>=◌, ◌≡◌, ap, ok-injective,
}
use esphome_mpubsub.Wire.Packet.{WireError, encode_packet, encoding_raw, encoding_proto}
use esphome_mpubsub.Schema.{Schema}
use esphome_mpubsub.Proto.Value.{Floats}
use esphome_mpubsub.Json.{JsonLib, JsonError, json_to_proto}
use esphome_mpubsub.Config.{MpubsubConfig, BridgeEntry}
use esphome_mpubsub.Wire.Address.{topic_to_group}
use esphome_mpubsub.Bridge.Startup.{mpubsub_topic_of}
use esphome_mpubsub.Bridge.Retransmission.{
  Count, times, indefinite, effective_retransmit_count, Jobs, publish,
}

-- What handleMQTTMessage logs where it stops.
pub data Dropped : Type 0 where
  untranslated : JsonError → Dropped
  unencoded : WireError → Dropped
  unsent : Dropped

-- A retransmit_count of the configuration. Below -1, which validate refuses, the program sends
-- once, as it does at 0.
unfoldable pub count_of : ℤ → Count
count_of (pos n) = times n
count_of (negsuc zero) = indefinite
count_of (negsuc (suc n)) = times 0

abbrev pub translation : Result JsonError Bytes → Result Dropped Bytes
translation (ok b) = ok b
translation (err e) = err (untranslated e)

abbrev pub encoded : Result WireError Bytes → Result Dropped Bytes
encoded (ok b) = ok b
encoded (err e) = err (unencoded e)

pub encoded_ok : (r : Result WireError Bytes) (b : Bytes) → encoded r ≡ ok b → r ≡ ok b
encoded_ok (ok x) b e = ap ok (ok-injective e)
encoded_ok (err x) b e = cc

-- The SCHEMA_ID in little-endian order in front of a body.
unfoldable pub with_schema_id : ℕ → Bytes → Bytes
with_schema_id sid body = sid % 2 ^ 8 ∷ sid / 2 ^ 8 % 2 ^ 8 ∷ body

module _ (lib : JsonLib) (fl : Floats) where
  -- The body and the encoding of a message.
  unfoldable pub message_body : Option Schema → Bytes → Result Dropped (Bytes × ℕ)
  message_body none payload = ok (payload, encoding_raw)
  message_body (some s) payload = do
    proto_body ← translation (json_to_proto lib fl s payload)
    ok (with_schema_id s.sid proto_body, encoding_proto)

  unfoldable pub message_packet :
      Option Bytes → Bytes → Option Schema → Bytes → Result Dropped Bytes
  message_packet key topic schema payload = do
    made ← message_body schema payload
    encoded (encode_packet topic made.0 made.1 key)

-- A datagram and the group it is sent to.
abbrev pub Datagram : Type 0
Datagram = Bytes × Bytes

-- The goroutine of scheduleFiniteRetransmits from attempt `i`, with `left` attempts to go: it
-- stops where a send fails. `sends i` is whether the attempt after `i` others succeeds.
unfoldable pub retransmits_from : (ℕ → Bool) → Datagram → ℕ → ℕ → List Datagram
retransmits_from sends d i zero = []
retransmits_from sends d i (suc left) =
    let rest = retransmits_from sends d (i + 1) left in if sends i then d ∷ rest else d ∷ []

unfoldable pub schedule_finite_retransmits : (ℕ → Bool) → Datagram → ℕ → List Datagram
schedule_finite_retransmits sends d count = retransmits_from sends d 1 (count - 1)

-- The sends of a finite count behind the first one. An indefinite count has a job instead.
unfoldable pub later_sends : (ℕ → Bool) → Datagram → Count → List Datagram
later_sends sends d indefinite = []
later_sends sends d (times n) = if ltb 1 n then schedule_finite_retransmits sends d n else []

-- What a message leads to: the jobs, the datagrams that SendTo was given, and where it stopped.
pub record Handled : Type 0 where
  pub jobs : Jobs
  pub attempts : List Datagram
  pub dropped : Option Dropped

-- What follows the encoding of a packet.
unfoldable pub send_packet : (ℕ → Bool) → Bytes → Datagram → Count → Jobs → Handled
send_packet sends topic d count st =
    if not (sends 0)
    then record { jobs = publish topic false count st; attempts = d ∷ []; dropped = some unsent }
    else record {
      jobs = publish topic true count st;
      attempts = d ∷ later_sends sends d count;
      dropped = none;
    }

unfoldable pub handle_mqtt_message :
    JsonLib
    → Floats
    → MpubsubConfig
    → (ℕ → Bool)
    → Bytes
    → Bytes
    → Bytes
    → ℕ
    → Option Schema
    → Jobs
    → Handled
handle_mqtt_message lib fl cfg sends topic group payload qos schema st =
    let count = effective_retransmit_count cfg.promote_qos (count_of cfg.retransmit_count) qos in
    elim (message_packet lib fl cfg.encryption_key topic schema payload) [
      | err e ↦ record { jobs = st; attempts = []; dropped = some e }
      | ok pkt ↦ send_packet sends topic (group, pkt) count st
    ]

-- The handler that Run subscribes for an entry, on a message with a topic.
unfoldable pub on_message :
    (Bytes → Bytes)
    → ℕ
    → JsonLib
    → Floats
    → MpubsubConfig
    → (ℕ → Bool)
    → BridgeEntry
    → Bytes
    → Bytes
    → ℕ
    → Jobs
    → Handled
on_message sha256 scope lib fl cfg sends e mqtt_topic payload qos st =
    let topic = mpubsub_topic_of e mqtt_topic in
    let group = topic_to_group sha256 topic scope in
    handle_mqtt_message lib fl cfg sends topic group payload qos e.schema_ptr st
