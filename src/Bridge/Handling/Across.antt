-- ===== src/Bridge/Handling/Across.antt =====
-- A message from the MQTT side of one bridge to the MQTT side of another.

use esphome_mpubsub.Base.{
  ℕ, suc, ◌*◌, ◌/◌, ◌%◌, ◌^◌, ◌<◌, ◌≡◌, refl, ap, ◌∙◌, arith, bit_or, ◌==◌, ltb, Bool, true, false,
  not, ◌&&◌, if◌then◌else◌, Result-cases, inl, inr,
}
use esphome_mpubsub.Base.{
  List, [], ◌∷◌, Bytes, length, drop, get_or, All, IsByte, Option, none, some, ok, err,
}
use esphome_mpubsub.Base.Bits.{bit_or_disjoint}
use esphome_mpubsub.Wire.Packet.{DecodedPacket, decode_packet, encode_packet, topic_crc32}
use esphome_mpubsub.Wire.Packet.RoundTrip.{decode_packet-encode_packet_plain}
use esphome_mpubsub.Wire.Packet.Encrypted.{decode_packet-encode_packet_xxtea}
use esphome_mpubsub.Schema.{Schema, known_key}
use esphome_mpubsub.Proto.Value.{Floats}
use esphome_mpubsub.Json.{JsonLib, json_to_proto, proto_to_json}
use esphome_mpubsub.Config.{BridgeEntry}
use esphome_mpubsub.Bridge.{Route, register, split_proto, route_payload, forward, dispatch, receive}
use esphome_mpubsub.Bridge.Routing.{routes_of, routes_for-register}
use esphome_mpubsub.Bridge.Handling.{with_schema_id, message_body, message_packet}

-- What a packet carries.
pub data Message : Type 0 where
  raw_message : Bytes → Message
  proto_message : ℕ → Bytes → Message

-- What a message of a schema, or of none, is sent as.
abbrev pub IsSentAs : JsonLib → Floats → Option Schema → Bytes → Message → Type 0
IsSentAs lib fl none payload m = m ≡ raw_message payload
IsSentAs lib fl (some s) payload m =
    (proto : Bytes) × (json_to_proto lib fl s payload ≡ ok proto) × (m ≡ proto_message s.sid proto)

-- ProtoToJSON as the receive loop takes it.
abbrev pub json_of : JsonLib → Floats → Schema → Bytes → Option Bytes
json_of lib fl s body = elim (proto_to_json lib fl s body) [
  | none ↦ none
  | some r ↦ elim r [ err e ↦ none | ok b ↦ some b ]
]

module _ (to_json : Schema → Bytes → Option Bytes) where
  -- What a route with a schema, or with none, makes of a message.
  abbrev pub content : Message → Option Schema → Option Bytes
  content (raw_message payload) none = some payload
  content (raw_message payload) (some s) = none
  content (proto_message sid body) none = none
  content (proto_message sid body) (some s) = if sid == s.sid then to_json s body else none

  -- What the routes publish of a message, in their order.
  abbrev pub published_by : Bool → Message → List Route → List (Bytes × Bytes)
  published_by encrypted m [] = []
  published_by encrypted m (r ∷ rs) =
      let rest = published_by encrypted m rs in
      if r.require_encryption && not encrypted
      then rest
      else elim (content m r.schema) [ none ↦ rest | some bytes ↦ (r.mqtt_topic, bytes) ∷ rest ]

  abbrev IsOf : DecodedPacket → Message → Type 0
  IsOf p (raw_message payload) = (p.encoding ≡ 0) × (p.payload ≡ payload)
  IsOf p (proto_message sid body) =
      (p.encoding ≡ 1) × (p.payload ≡ with_schema_id sid body) × (sid < 2 ^ 16)

  abbrev split_of : Message → ℕ × Bytes
  split_of (raw_message payload) = (0, [])
  split_of (proto_message sid body) = (sid, body)

  split_proto_of : (p : DecodedPacket) (m : Message) → IsOf p m → split_proto p ≡ some (split_of m)
  unfolding split_proto with_schema_id
  split_proto_of p (raw_message payload) (e, h) = ground arith
  split_proto_of p (proto_message sid body) (e, h, fits) =
      let low = sid % 2 ^ 8 in
      let high = sid / 2 ^ 8 % 2 ^ 8 in
      let is_proto : (p.encoding == 1) ≡ true = ground arith in
      let joined : bit_or low (high * 2 ^ 8) ≡ sid =
        bit_or_disjoint 8 low high (omega arith) ∙ omega arith in
      let whole : Bytes → Option (ℕ × Bytes) = λ l.
        if ltb (length l) 2
        then none
        else some (bit_or (get_or l 0 0) (get_or l 1 0 * 2 ^ 8), drop 2 l) in
      let long : ltb (length (with_schema_id sid body)) 2 ≡ false = ground arith in
      ap (λ (b : Bool). if b then whole p.payload else some (0, [])) is_proto
      ∙ ap whole h
      ∙ ap (λ (b : Bool). if b then none else some (bit_or low (high * 2 ^ 8), body)) long
      ∙ ap (λ (n : ℕ). some (n, body)) joined

  forward_of :
      (p : DecodedPacket) (m : Message) (rs : List Route)
      → IsOf p m
      → forward to_json p (split_of m).0 (split_of m).1 rs ≡ published_by p.was_encrypted m rs
  unfolding forward route_payload
  forward_of p m [] h = refl
  forward_of p (raw_message payload) (r ∷ rs) h =
      ground (arith, forward_of p (raw_message payload) rs h)
  forward_of p (proto_message sid body) (r ∷ rs) h =
      ground (arith, forward_of p (proto_message sid body) rs h)

  no_route :
      (p : DecodedPacket) (m : Message) (rs : List Route)
      → IsOf p m
      → (if length rs == 0 then [] else forward to_json p (split_of m).0 (split_of m).1 rs)
        ≡ published_by p.was_encrypted m rs
  no_route p m [] h = refl
  no_route p m (r ∷ rs) h =
      let some_route : (suc (length rs) == 0) ≡ false = ground arith in
      rw some_route (forward_of p m (r ∷ rs) h)

  dispatch_of :
      (es : List BridgeEntry) (p : DecodedPacket) (m : Message)
      → IsOf p m
      → dispatch to_json (register es []) p
        ≡ published_by p.was_encrypted m (routes_of p.topic_crc es)
  unfolding dispatch
  dispatch_of es p m h =
      rw (dispatch, split_proto_of p m h, routes_for-register es p.topic_crc)
        (no_route p m (routes_of p.topic_crc es) h)

-- A SCHEMA_ID takes 16 bits.
abbrev pub FitsId : Option Schema → Type 0
FitsId none = Unit {0}
FitsId (some s) = s.sid < 2 ^ 16

-- A body and an encoding are those of a message.
abbrev IsBodyOf : Bytes → ℕ → Message → Type 0
IsBodyOf body enc (raw_message payload) = (enc ≡ 0) × (body ≡ payload)
IsBodyOf body enc (proto_message sid proto) =
    (enc ≡ 1) × (body ≡ with_schema_id sid proto) × (sid < 2 ^ 16)

module _ (lib : JsonLib) (fl : Floats) where
  message_body-IsSentAs :
      (schema : Option Schema) (payload body : Bytes) (enc : ℕ)
      → FitsId schema
      → message_body lib fl schema payload ≡ ok (body, enc)
      → (m : Message) × IsSentAs lib fl schema payload m × IsBodyOf body enc m
  unfolding message_body
  message_body-IsSentAs none payload body enc fits e = (raw_message payload, refl, ground arith)
  message_body-IsSentAs (some s) payload body enc fits e =
      elim (Result-cases (json_to_proto lib fl s payload)) [
        | inr (x, bad) ↦ absurd (ground arith)
        | inl (proto, made) ↦
            (proto_message s.sid proto, (proto, made, refl), (ground arith, ground arith, fits))
      ]

  packet-IsOf :
      (topic body sent : Bytes) (enc : ℕ) (key : Option Bytes) (m : Message)
      → All IsByte topic
      → All IsByte body
      → IsBodyOf body enc m
      → encode_packet topic body enc key ≡ ok sent
      → (p : DecodedPacket) × (decode_packet sent key ≡ ok p)
        × (p.topic_crc ≡ topic_crc32 topic)
        × (p.was_encrypted ≡ known_key key)
        × IsOf (json_of lib fl) p m
  packet-IsOf topic body sent enc none (raw_message x) ht hb b e =
      (_, decode_packet-encode_packet_plain topic body enc ht none e, refl, refl, b)
  packet-IsOf topic body sent enc none (proto_message sid x) ht hb b e =
      (_, decode_packet-encode_packet_plain topic body enc ht none e, refl, refl, b)
  packet-IsOf topic body sent enc (some key) (raw_message x) ht hb b e =
      (_, decode_packet-encode_packet_xxtea topic body key enc ht hb e, refl, refl, b)
  packet-IsOf topic body sent enc (some key) (proto_message sid x) ht hb b e =
      (_, decode_packet-encode_packet_xxtea topic body key enc ht hb e, refl, refl, b)

  message_packet_steps :
      (key : Option Bytes) (topic : Bytes) (schema : Option Schema) (payload sent body : Bytes)
      (enc : ℕ)
      → message_body lib fl schema payload ≡ ok (body, enc)
      → message_packet lib fl key topic schema payload ≡ ok sent
      → encode_packet topic body enc key ≡ ok sent
  unfolding message_packet
  message_packet_steps key topic schema payload sent body enc made e =
      elim (Result-cases (encode_packet topic body enc key)) [
        | inr (x, bad) ↦ absurd (ground arith)
        | inl (b, wrote) ↦ ground arith
      ]

  -- A message that one bridge takes for a topic, and whose packet it encodes, is published by a
  -- bridge with the same key on its routes for the topic's checksum, in the order of the
  -- configuration; those that require encryption get it just where there is a key. Without a schema
  -- the routes without one publish the payload as it is. With one, JSONToProto made a body of the
  -- payload, and the routes whose schema has the same SCHEMA_ID publish what ProtoToJSON makes of
  -- that body, or nothing where it fails. SCHEMA_IDs take 16 bits, and the topic and the body are
  -- bytes.
  pub receive-message_packet :
      (es : List BridgeEntry) (topic payload sent body : Bytes) (enc : ℕ) (key : Option Bytes)
      (schema : Option Schema)
      → All IsByte topic
      → All IsByte body
      → FitsId schema
      → message_body lib fl schema payload ≡ ok (body, enc)
      → message_packet lib fl key topic schema payload ≡ ok sent
      → (m : Message) × IsSentAs lib fl schema payload m
        × (receive (json_of lib fl) (register es []) key sent
            ≡ published_by (json_of lib fl) (known_key key) m (routes_of (topic_crc32 topic) es))
  unfolding receive
  receive-message_packet es topic payload sent body enc key schema ht hb fits made e =
      let (m, as_sent, bodied) = message_body-IsSentAs schema payload body enc fits made in
      let wrote = message_packet_steps key topic schema payload sent body enc made e in
      let (p, decoded, crc, secret, holds) =
        packet-IsOf topic body sent enc key m ht hb bodied wrote in
      (
        m,
        as_sent,
        rw (receive, decoded)
            (dispatch_of (json_of lib fl) es p m holds
              ∙ ap (λ (b : Bool). published_by (json_of lib fl) b m (routes_of p.topic_crc es))
                  secret
              ∙ ap (λ (n : ℕ). published_by (json_of lib fl) (known_key key) m (routes_of n es))
                  crc),
      )
