-- ===== src/Node/Interop/Across.antt =====
-- From a node to the bridge, from the bridge to a node, and from a node to another.
use mathlib.Core.Path.{subst}
use esphome_mpubsub.Base.{
  ℕ, ◌+◌, ◌%◌, ◌^◌, ◌<◌, ◌≡◌, refl, ap, ap₂, ◌∙◌, sym, arith, ltb, Bool, true, ◌==◌, inl, inr,
}
use esphome_mpubsub.Base.{
  List, [], ◌∷◌, Bytes, length, All, All-append, IsByte, Option, none, some, Result, ok, err,
  Bool-cases, Result-cases,
}
use esphome_mpubsub.Wire.Words.{put_u32, put_u16}
use esphome_mpubsub.Wire.Packet.{
  WireError, Body, datagram, encode_body, encode_packet, decode_packet,
}
use esphome_mpubsub.Wire.Packet
use esphome_mpubsub.Wire.Address
use esphome_mpubsub.Wire.Packet.Encoding.{length-encode_packet}
use esphome_mpubsub.Wire.Packet.RoundTrip.{decode_packet-encode_packet_plain}
use esphome_mpubsub.Wire.Packet.Encrypted.{decode_packet-encode_packet_xxtea}
use esphome_mpubsub.Schema.{Schema, known_key}
use esphome_mpubsub.Config.{BridgeEntry}
use esphome_mpubsub.Bridge.{register, receive}
use esphome_mpubsub.Bridge.Routing.{routes_of}
use esphome_mpubsub.Bridge.Delivery
use esphome_mpubsub.Bridge.Delivery.{receive-encode_packet}
use esphome_mpubsub.Node.Topic.{topic_crc32, topic_crc32_lem}
use esphome_mpubsub.Node.Format.{Encoding, raw, protobuf, encoding_byte, encoding_of}
use esphome_mpubsub.Node.{Cipher, Node, Outgoing, deliver, on_packet}
use esphome_mpubsub.Node.Sending.{publish}
use esphome_mpubsub.Node.Interop.{IsXxtea, HasKeyField, key_of}
use esphome_mpubsub.Node.Interop.Sent.{sent_to, publish-encode_packet}
use esphome_mpubsub.Node.Interop.Heard.{heard, on_packet-decode_packet}
use esphome_mpubsub.Node.Interop.Callbacks.{called_for, deliver-called_for}
use esphome_mpubsub.Node.Interop.Framing.{words_to_bytes_le-IsByte}

put_u32-IsByte : (w : ℕ) → All IsByte (put_u32 w)
unfolding put_u32
put_u32-IsByte w = omega arith

put_u16-IsByte : (w : ℕ) → All IsByte (put_u16 w)
unfolding put_u16
put_u16-IsByte w = omega arith

datagram-IsByte :
    (enc n : ℕ) (b : Body)
    → enc < 256
    → b.enc_mode < 256
    → All IsByte b.body
    → All IsByte (datagram enc n b)
unfolding datagram
datagram-IsByte enc n b e m h = (
  omega arith,
  (
    omega arith,
    (
      omega arith,
      (
        e,
        All-append IsByte (put_u32 b.hdr_crc) _ (put_u32-IsByte b.hdr_crc) (
            All-append IsByte (put_u16 (n % 2 ^ 16)) _ (put_u16-IsByte (n % 2 ^ 16))
              (m, (omega arith, h))),
      ),
    ),
  ),
)

-- The mode and the body of what EncodePacket assigns are bytes.
abbrev AreBytes : Result WireError Body → Type 0
AreBytes (ok b) = (b.enc_mode < 256) × All IsByte b.body
AreBytes (err x) = Unit {0}

encode_body-AreBytes :
    (crc : ℕ) (payload : Bytes) (key : Option Bytes)
    → All IsByte payload
    → AreBytes (encode_body crc payload key)
unfolding encode_body
encode_body-AreBytes crc payload none h = elim (Bool-cases (ltb 1220 (length payload))) [
  | inl over ↦ rw (encode_body, over) tt
  | inr fits ↦ rw (encode_body, fits) (omega arith, h)
]
encode_body-AreBytes crc payload (some key) h =
    let clen = Packet.xxtea_ciphertext_len (length payload) in
    elim (Bool-cases (length key == 32)) [
      | inr wrong ↦ rw (encode_body, wrong) tt
      | inl long ↦ elim (Bool-cases (ltb 1232 (12 + clen))) [
        | inl over ↦ rw (encode_body, long, over) tt
        | inr fits ↦ rw (encode_body, long, fits) (omega arith, words_to_bytes_le-IsByte _)
      ]
    ]

encode_packet-IsByte :
    (topic payload : Bytes) (enc : ℕ) (key : Option Bytes) (sent : Bytes)
    → All IsByte payload
    → encode_packet topic payload enc key ≡ ok sent
    → All IsByte sent
unfolding encode_packet
encode_packet-IsByte topic payload enc key sent h e =
    let crc = Packet.topic_crc32 topic in
    elim (Result-cases (encode_body crc payload key)) [
      | inr (x, failed) ↦ absurd (ground arith)
      | inl (b, made) ↦
          let (mode, body) = subst AreBytes made (encode_body-AreBytes crc payload key h) in
          let shape : datagram enc (length payload) b ≡ sent = ground arith in
          let byte : enc < 256 = ground arith in
          subst (All IsByte) shape (datagram-IsByte enc (length payload) b byte mode body)
    ]

-- What a node makes of a payload that EncodePacket took.
decoded_sent :
    (node : Node) (topic payload : Bytes) (enc : ℕ) (key : Option Bytes) (sent : Bytes)
    → All IsByte topic
    → All IsByte payload
    → encode_packet topic payload enc key ≡ ok sent
    → heard node (decode_packet sent key)
      ≡ deliver node.subscriptions
          (Packet.topic_crc32 topic)
          (encoding_of enc)
          payload
          (known_key key)
decoded_sent node topic payload enc none sent ht hp h =
    ap (heard node) (decode_packet-encode_packet_plain topic payload enc ht none h)
decoded_sent node topic payload enc (some key) sent ht hp h =
    ap (heard node) (decode_packet-encode_packet_xxtea topic payload key enc ht hp h)

sent_to-one :
    (group : Bytes) (r : Result WireError Bytes) (d : Outgoing)
    → sent_to group r ≡ d ∷ []
    → r ≡ ok d.datagram
sent_to-one group (ok pkt) d h = cc
sent_to-one group (err x) d h = cc

encoding_of-encoding_byte : (e : Encoding) → encoding_of (encoding_byte e) ≡ e
encoding_of-encoding_byte raw = refl
encoding_of-encoding_byte protobuf = refl

known_key_of : (node : Node) → known_key (key_of node) ≡ node.encryption_enabled
known_key_of node = elim (Bool-cases node.encryption_enabled) [
  | inl on ↦ rw on refl
  | inr off ↦ rw off refl
]

module _ (cipher : Cipher) (same : IsXxtea cipher) (node : Node) (field : HasKeyField node) where
  -- Where ESPHome's cipher is that of wire.go: a payload that EncodePacket takes with the key of a
  -- node is one that the node delivers, with the topic's checksum and the encoding.
  pub on_packet-encode_packet :
      (topic payload sent : Bytes) (enc : ℕ)
      → All IsByte topic
      → All IsByte payload
      → encode_packet topic payload enc (key_of node) ≡ ok sent
      → (on_packet cipher node sent).1
        ≡ deliver node.subscriptions
            (Packet.topic_crc32 topic)
            (encoding_of enc)
            payload
            node.encryption_enabled
  on_packet-encode_packet topic payload sent enc ht hp h =
      on_packet-decode_packet cipher same node field sent
        (encode_packet-IsByte topic payload enc (key_of node) sent hp h)
        (length-encode_packet topic payload enc (key_of node) h)
      ∙ decoded_sent node topic payload enc (key_of node) sent ht hp h
      ∙ ap
          (λ (b : Bool).
            deliver node.subscriptions (Packet.topic_crc32 topic) (encoding_of enc) payload b)
          (known_key_of node)

  module _ (sha256 : Bytes → Bytes) (topic payload : Bytes) (topic_bytes : All IsByte topic)
      (payload_bytes : All IsByte payload) (sends : Bool) (socket : node.socket ≡ true)
      (d : Outgoing) where
    -- What a node sent is what EncodePacket makes of it.
    encoded_lem :
        (e : Encoding)
        → (publish cipher sha256 sends topic payload e node).attempts ≡ d ∷ []
        → encode_packet topic payload (encoding_byte e) (key_of node) ≡ ok d.datagram
    encoded_lem e h =
        let group = Address.topic_to_group sha256 topic node.scope in
        sent_to-one group (encode_packet topic payload (encoding_byte e) (key_of node)) d (
          sym (
            publish-encode_packet cipher sha256 same node field topic payload e payload_bytes sends
              socket)
          ∙ h)

    -- Where ESPHome's cipher is that of wire.go and the node's key has 32 bytes: a RAW payload that a
    -- node sends is published to MQTT by a bridge with the same key, once for
    -- each of its entries for the topic's checksum that has no schema, in the order of the
    -- configuration. Entries that require encryption get it just where there is a key.
    pub receive-publish :
        (to_json : Schema → Bytes → Option Bytes) (es : List BridgeEntry)
        → (publish cipher sha256 sends topic payload raw node).attempts ≡ d ∷ []
        → receive to_json (register es []) (key_of node) d.datagram
          ≡ Delivery.deliver payload node.encryption_enabled
              (routes_of (Packet.topic_crc32 topic) es)
    receive-publish to_json es h =
        receive-encode_packet to_json es topic payload d.datagram (key_of node) topic_bytes
          payload_bytes (encoded_lem raw h)
        ∙ ap (λ (b : Bool). Delivery.deliver payload b (routes_of (Packet.topic_crc32 topic) es))
            (known_key_of node)

module _ (cipher : Cipher) (same : IsXxtea cipher) (node other : Node) (field : HasKeyField node)
    (field_too : HasKeyField other) (keys : key_of node ≡ key_of other) where
  -- Where ESPHome's cipher is that of wire.go and the keys of the nodes have 32 bytes: what a node
  -- sends leads another with the same key to the callbacks of its subscriptions for the topic's
  -- checksum, less those that require encryption where there is no key. Of a RAW payload these are
  -- the raw callbacks, with the payload that was given; of a PROTO one the typed callbacks of the
  -- SCHEMA_ID in its first two bytes, with the rest, and none where it has fewer than two.
  pub on_packet-publish :
      (sha256 : Bytes → Bytes) (topic payload : Bytes) (e : Encoding) (sends : Bool) (d : Outgoing)
      → All IsByte topic
      → All IsByte payload
      → node.socket ≡ true
      → (publish cipher sha256 sends topic payload e node).attempts ≡ d ∷ []
      → (on_packet cipher other d.datagram).1
        ≡ called_for (topic_crc32 topic) e payload other.encryption_enabled other.subscriptions
  on_packet-publish sha256 topic payload e sends d ht hp socket h =
      let made = encoded_lem cipher same node field sha256 topic payload ht hp sends socket d e h in
      let made_too : encode_packet topic payload (encoding_byte e) (key_of other) ≡ ok d.datagram =
        ap (λ (k : Option Bytes). encode_packet topic payload (encoding_byte e) k) (sym keys)
        ∙ made in
      on_packet-encode_packet cipher same other field_too topic payload d.datagram (encoding_byte e)
        ht hp made_too
      ∙ ap₂
          (λ (c : ℕ) (x : Encoding).
            deliver other.subscriptions c x payload other.encryption_enabled)
          (sym (topic_crc32_lem topic)) (encoding_of-encoding_byte e)
      ∙ deliver-called_for (topic_crc32 topic) e payload other.encryption_enabled
          other.subscriptions
