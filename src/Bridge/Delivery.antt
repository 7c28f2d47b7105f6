-- ===== src/Bridge/Delivery.antt =====
-- What a round of the receive loop publishes.
use mathlib.Core.List.{Mem, mem-cons_self, mem-cons_of_mem}
use esphome_mpubsub.Base.{
  ℕ, suc, ◌*◌, ◌^◌, ◌≤◌, ◌≡◌, refl, arith, bit_or, Bool, false, not, ◌&&◌, ◌==◌, if◌then◌else◌,
  Bool-cases, Option-cases, Result-cases, inl, inr,
}
use esphome_mpubsub.Base.{
  List, [], ◌∷◌, Bytes, length, drop, get_or, All, IsByte, Option, none, some, ok,
}
use esphome_mpubsub.Wire.Packet.{DecodedPacket, decode_packet, encode_packet, topic_crc32}
use esphome_mpubsub.Wire.Packet.RoundTrip.{KnownEncoding, decode_packet-encode_packet_plain}
use esphome_mpubsub.Wire.Packet.Encrypted.{decode_packet-encode_packet_xxtea}
use esphome_mpubsub.Wire.Packet.Decoding.{decode_packet-IsReceived}
use esphome_mpubsub.Schema.{Schema, known_key}
use esphome_mpubsub.Config.{BridgeEntry}
use esphome_mpubsub.Bridge.{
  Route, routes_for, register, split_proto, route_payload, forward, dispatch, receive,
}
use esphome_mpubsub.Bridge.Routing.{routes_of, routes_for-register}

-- What is published of a payload that was sent as RAW.
abbrev pub deliver : Bytes → Bool → List Route → List (Bytes × Bytes)
deliver payload encrypted [] = []
deliver payload encrypted (r ∷ rs) =
    let rest = deliver payload encrypted rs in
    elim r.schema [
      | some s ↦ rest
      | none ↦
          if r.require_encryption && not encrypted then rest else (r.mqtt_topic, payload) ∷ rest
    ]

module _ (proto_to_json : Schema → Bytes → Option Bytes) where
  -- What a route with or without a schema may publish of a packet.
  abbrev pub IsContent : DecodedPacket → Bytes → Option Schema → Type 0
  IsContent p content none = (p.encoding ≡ 0) × (content ≡ p.payload)
  IsContent p content (some s) =
      (p.encoding ≡ 1)
      × (2 ≤ length p.payload)
      × (bit_or (get_or p.payload 0 0) (get_or p.payload 1 0 * 2 ^ 8) ≡ s.sid)
      × (proto_to_json s (drop 2 p.payload) ≡ some content)

  -- A publish comes from a packet with a route for its checksum.
  pub record IsForwarded (table : List (ℕ × List Route)) (key : Option Bytes) (received : Bytes)
      (out : Bytes × Bytes) : Type 0 where
    pub packet : DecodedPacket
    pub decoded : decode_packet received key ≡ ok packet
    pub route : Route
    pub listed : Mem route (routes_for packet.topic_crc table)
    pub topic : out.0 ≡ route.mqtt_topic
    pub content : IsContent packet out.1 route.schema
    pub guarded : (route.require_encryption && not packet.was_encrypted) ≡ false

  route_payload-IsContent :
      (p : DecodedPacket) (sid : ℕ) (body content : Bytes) (flag : Bool) (topic : Bytes)
      (schema : Option Schema)
      → KnownEncoding p.encoding
      → split_proto p ≡ some (sid, body)
      → route_payload proto_to_json p sid body
          (record { mqtt_topic = topic; require_encryption = flag; schema = schema })
        ≡ some content
      → IsContent p content schema × ((flag && not p.was_encrypted) ≡ false)
  unfolding route_payload split_proto
  route_payload-IsContent p sid body content flag topic none known split h =
      (ground arith, ground arith)
  route_payload-IsContent p sid body content flag topic (some s) known split h =
      (ground arith, ground arith)

  module _ (table : List (ℕ × List Route)) (key : Option Bytes) (received : Bytes)
      (p : DecodedPacket) (decoded : decode_packet received key ≡ ok p) (sid : ℕ) (body : Bytes)
      (split : split_proto p ≡ some (sid, body)) where
    publish-IsForwarded :
        (r : Route) (content : Bytes)
        → Mem r (routes_for p.topic_crc table)
        → route_payload proto_to_json p sid body r ≡ some content
        → IsForwarded table key received (r.mqtt_topic, content)
    publish-IsForwarded r content listed h =
        let known = (decode_packet-IsReceived received p key decoded).known in
        let (fits, safe) =
          route_payload-IsContent p sid body content r.require_encryption r.mqtt_topic r.schema
            known split h in
        record {
          packet = p;
          decoded = decoded;
          route = r;
          listed = listed;
          topic = refl;
          content = fits;
          guarded = safe;
        }

    forward-IsForwarded :
        (rs : List Route)
        → ((r : Route) → Mem r rs → Mem r (routes_for p.topic_crc table))
        → All (IsForwarded table key received) (forward proto_to_json p sid body rs)
    unfolding forward
    forward-IsForwarded [] keep = tt
    forward-IsForwarded (r ∷ rs) keep =
        let rest = forward-IsForwarded rs (λ x m. keep x (mem-cons_of_mem r m)) in
        elim (Option-cases (route_payload proto_to_json p sid body r)) [
          | inl e ↦ rw (forward, e) rest
          | inr (content, e) ↦
              rw (forward, e) (publish-IsForwarded r content (keep r mem-cons_self) e, rest)
        ]

  dispatch-IsForwarded :
      (table : List (ℕ × List Route)) (key : Option Bytes) (received : Bytes) (p : DecodedPacket)
      → decode_packet received key ≡ ok p
      → All (IsForwarded table key received) (dispatch proto_to_json table p)
  unfolding dispatch
  dispatch-IsForwarded table key received p e =
      elim (Bool-cases (length (routes_for p.topic_crc table) == 0)) [
        | inl empty ↦ rw (dispatch, empty) tt
        | inr some_route ↦ elim (Option-cases (split_proto p)) [
          | inl short ↦ rw (dispatch, some_route, short) tt
          | inr ((sid, body), split) ↦
              rw (dispatch, some_route, split)
                (forward-IsForwarded table key received p e sid body split
                  (routes_for p.topic_crc table) (λ r m. m))
        ]
      ]

  -- Every publish comes from a packet that was decoded and a route for its checksum that asks for
  -- no encryption where the packet had none. Without a schema the packet is RAW and its payload is
  -- published as it is; with one it is PROTO, its first two bytes are the schema's SCHEMA_ID, and
  -- what is published is the translation of the rest.
  pub receive-IsForwarded :
      (table : List (ℕ × List Route)) (key : Option Bytes) (received : Bytes)
      → All (IsForwarded table key received) (receive proto_to_json table key received)
  unfolding receive
  receive-IsForwarded table key received = elim (Result-cases (decode_packet received key)) [
    | inl (p, e) ↦ rw (receive, e) (dispatch-IsForwarded table key received p e)
    | inr (x, e) ↦ rw (receive, e) tt
  ]

  forward_raw :
      (p : DecodedPacket) (sid : ℕ) (body : Bytes) (rs : List Route)
      → p.encoding ≡ 0
      → forward proto_to_json p sid body rs ≡ deliver p.payload p.was_encrypted rs
  unfolding forward route_payload
  forward_raw p sid body [] e = refl
  forward_raw p sid body (r ∷ rs) e = ground (arith, forward_raw p sid body rs e)

  split_raw : (p : DecodedPacket) → p.encoding ≡ 0 → split_proto p ≡ some (0, [])
  unfolding split_proto
  split_raw p e = ground arith

  no_route :
      (p : DecodedPacket) (rs : List Route)
      → p.encoding ≡ 0
      → (if length rs == 0 then [] else forward proto_to_json p 0 [] rs)
        ≡ deliver p.payload p.was_encrypted rs
  no_route p [] e = refl
  no_route p (r ∷ rs) e =
      let some_route : (suc (length rs) == 0) ≡ false = ground arith in
      rw some_route (forward_raw p 0 [] (r ∷ rs) e)

  dispatch_raw :
      (es : List BridgeEntry) (p : DecodedPacket)
      → p.encoding ≡ 0
      → dispatch proto_to_json (register es []) p
        ≡ deliver p.payload p.was_encrypted (routes_of p.topic_crc es)
  unfolding dispatch
  dispatch_raw es p e =
      rw (dispatch, split_raw p e, routes_for-register es p.topic_crc)
        (no_route p (routes_of p.topic_crc es) e)

  -- A RAW payload that EncodePacket took for a topic of bytes is published, by a bridge with the
  -- same key, once for each of its entries for the topic's checksum that has no schema, in the
  -- order of the configuration. Entries that require encryption get it just where there is a key.
  pub receive-encode_packet :
      (es : List BridgeEntry) (topic payload sent : Bytes) (key : Option Bytes)
      → All IsByte topic
      → All IsByte payload
      → encode_packet topic payload 0 key ≡ ok sent
      → receive proto_to_json (register es []) key sent
        ≡ deliver payload (known_key key) (routes_of (topic_crc32 topic) es)
  unfolding receive
  receive-encode_packet es topic payload sent none ht hp h =
      rw (receive, decode_packet-encode_packet_plain topic payload 0 ht none h)
        (dispatch_raw es _ refl)
  receive-encode_packet es topic payload sent (some key) ht hp h =
      rw (receive, decode_packet-encode_packet_xxtea topic payload key 0 ht hp h)
        (dispatch_raw es _ refl)
