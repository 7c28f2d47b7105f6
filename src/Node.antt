-- ===== src/Node.antt =====
-- The component of components/mpubsub/multicast_pubsub.cpp on the platforms with sockets: its
-- subscriptions, what it sends and which callbacks a datagram leads to. The cipher of ESPHome's
-- xxtea component, SHA-256 and what sendto answers are parameters. A callback is its number. The
-- cipher takes words in place of bytes: the node is little-endian.
pub mod Sha256
pub mod Topic
pub mod Format
pub mod Timers
pub mod Sending
pub mod Receiving
pub mod Subscriptions
pub mod Interop
use esphome_mpubsub.Base.{ℕ, ℤ, ◌+◌, ◌-◌, ◌*◌, ◌/◌, ◌%◌, ◌^◌, bit_or}
use esphome_mpubsub.Base.{Bool, true, false, not, ◌&&◌, ◌||◌, ◌==◌, ltb, if◌then◌else◌}
use esphome_mpubsub.Base.{
  List, [], ◌∷◌, ◌++◌, map, Bytes, length, get_or, take, drop, replicate, ◌=ᵇ◌, Result, ok, err,
}
use Topic.{topic_to_group, topic_crc32}
use Format.{
  header_len, max_datagram, max_payload, Encoding, raw, protobuf, EncMode, unencrypted, xxtea,
  xxtea_ciphertext_len, DecodeError, DecodedPacket, encode_header, four_bytes, two_bytes, decode,
}
use esphome_mpubsub.Wire.Words.{bytes_to_words_le, words_to_bytes_le}

-- `xxtea::encrypt` and `xxtea::decrypt` on words, with the words of the key.
pub record Cipher : Type 0 where
  pub encrypt : List ℕ → List ℕ → List ℕ
  pub decrypt : List ℕ → List ℕ → List ℕ

pub record TypedCallback : Type 0 where
  pub schema_id : ℕ
  pub callback : ℕ

pub record Subscription : Type 0 where
  pub topic : Bytes
  pub crc : ℕ
  pub group : Bytes
  pub raw_callbacks : List ℕ
  pub typed_callbacks : List TypedCallback
  pub require_encryption : Bool

-- A datagram with the group that it goes to.
pub record Outgoing : Type 0 where
  pub datagram : Bytes
  pub group : Bytes

-- `socket` is whether there is one, `failed` whether the component was marked so, and `joined` are
-- the groups that the socket was asked to join.
pub record Node : Type 0 where
  pub scope : ℕ
  pub retransmit_count : ℤ
  pub retransmit_delay_ms : ℕ
  pub encryption_enabled : Bool
  pub encryption_key_bytes : Bytes
  pub socket : Bool
  pub failed : Bool
  pub joined : List Bytes
  pub subscriptions : List Subscription
  pub packets_sent : ℕ
  pub packets_received : ℕ
  pub indefinite_jobs : List (Bytes × Outgoing)

unfoldable pub set_encryption_key : Bytes → Node → Node
set_encryption_key key node =
    if length key == 32
    then record node { encryption_enabled = true; encryption_key_bytes = key }
    else record node { encryption_enabled = false }

-- `created` is whether there is a socket to have, `bound` whether it takes the port.
unfoldable pub setup : Bool → Bool → Node → Node
setup created bound node =
    if not created
    then record node { failed = true }
    else if not bound
    then record node { socket = true; failed = true }
    else record node {
      socket = true;
      joined = node.joined ++ map (λ (s : Subscription). s.group) node.subscriptions;
    }

-- The subscriptions, once the one of a topic has changed.
unfoldable pub change_subscription :
    Bytes → (Subscription → Subscription) → List Subscription → List Subscription
change_subscription topic f [] = []
change_subscription topic f (sub ∷ subs) =
    let rest = change_subscription topic f subs in
    if sub.topic =ᵇ topic then f sub ∷ subs else sub ∷ rest

unfoldable pub find_subscription : Bytes → List Subscription → Bool
find_subscription topic [] = false
find_subscription topic (sub ∷ subs) = (sub.topic =ᵇ topic) || find_subscription topic subs

-- The subscription that is made for a topic.
abbrev pub new_subscription : (Bytes → Bytes) → Bytes → Bool → Node → Subscription
new_subscription sha256 topic require_encryption node = record {
  topic = topic;
  crc = topic_crc32 topic;
  group = topic_to_group sha256 topic node.scope;
  raw_callbacks = [];
  typed_callbacks = [];
  require_encryption = require_encryption;
}

module _ (sha256 : Bytes → Bytes) where
  -- The subscription of a topic is there behind it, and its flag is at least the one given.
  unfoldable pub find_or_create_subscription : Bytes → Bool → Node → Node
  find_or_create_subscription topic require_encryption node =
      let sub = new_subscription sha256 topic require_encryption node in
      if find_subscription topic node.subscriptions
      then record node {
        subscriptions =
            change_subscription topic
              (λ (s : Subscription). record s {
                require_encryption = require_encryption || s.require_encryption;
              })
              node.subscriptions;
      }
      else record node {
        subscriptions = node.subscriptions ++ sub ∷ [];
        joined = if node.socket then node.joined ++ sub.group ∷ [] else node.joined;
      }

  unfoldable pub subscribe : Bytes → ℕ → Bool → Node → Node
  subscribe topic cb require_encryption node =
      let found = find_or_create_subscription topic require_encryption node in
      record found {
        subscriptions =
            change_subscription topic
              (λ (s : Subscription). record s { raw_callbacks = s.raw_callbacks ++ cb ∷ [] })
              found.subscriptions;
      }

  unfoldable pub subscribe_typed : Bytes → TypedCallback → Bool → Node → Node
  subscribe_typed topic cb require_encryption node =
      let found = find_or_create_subscription topic require_encryption node in
      record found {
        subscriptions =
            change_subscription topic
              (λ (s : Subscription). record s { typed_callbacks = s.typed_callbacks ++ cb ∷ [] })
              found.subscriptions;
      }

-- A callback with the bytes that it is called with.
pub record Invocation : Type 0 where
  pub callback : ℕ
  pub body : Bytes

unfoldable pub run_raw : List ℕ → Bytes → List Invocation
run_raw [] payload = []
run_raw (cb ∷ cbs) payload = record { callback = cb; body = payload } ∷ run_raw cbs payload

unfoldable pub run_typed : List TypedCallback → ℕ → Bytes → List Invocation
run_typed [] schema_id body = []
run_typed (tc ∷ tcs) schema_id body =
    let rest = run_typed tcs schema_id body in
    if tc.schema_id == schema_id
    then record { callback = tc.callback; body = body } ∷ rest
    else rest

unfoldable pub run_callbacks : Subscription → Encoding → Bytes → List Invocation
run_callbacks sub raw payload = run_raw sub.raw_callbacks payload
run_callbacks sub protobuf payload =
    if ltb (length payload) 2
    then []
    else run_typed sub.typed_callbacks (two_bytes (get_or payload 0 0) (get_or payload 1 0))
        (drop 2 payload)

unfoldable pub deliver : List Subscription → ℕ → Encoding → Bytes → Bool → List Invocation
deliver [] crc encoding payload was_encrypted = []
deliver (sub ∷ subs) crc encoding payload was_encrypted =
    let rest = deliver subs crc encoding payload was_encrypted in
    if not (sub.crc == crc)
    then rest
    else if sub.require_encryption && not was_encrypted
    then rest
    else run_callbacks sub encoding payload ++ rest

module _ (cipher : Cipher) where
  -- The branch of on_packet_ for ENC_MODE XXTEA.
  unfoldable pub deliver_decrypted : Node → DecodedPacket → List Invocation
  deliver_decrypted node pkt =
      let work = words_to_bytes_le (
        cipher.decrypt (bytes_to_words_le pkt.payload)
          (bytes_to_words_le node.encryption_key_bytes)) in
      if not node.encryption_enabled
      then []
      else if ltb max_datagram (length pkt.payload)
      then []
      else deliver node.subscriptions
          (four_bytes (get_or work 0 0) (get_or work 1 0) (get_or work 2 0) (get_or work 3 0))
          pkt.encoding (take pkt.plaintext_len (drop 4 work)) true

  unfoldable pub dispatched : Node → DecodedPacket → List Invocation
  dispatched node pkt = elim pkt.enc_mode [
    | xxtea ↦ deliver_decrypted node pkt
    | unencrypted ↦ deliver node.subscriptions pkt.topic_crc pkt.encoding pkt.payload false
  ]

  -- A datagram that is not decoded is dropped.
  abbrev pub answers : Node → Result DecodeError DecodedPacket → List Invocation
  answers node (err e) = []
  answers node (ok pkt) = dispatched node pkt

  -- The node behind a datagram, and the callbacks that were called.
  unfoldable pub on_packet : Node → Bytes → Node × List Invocation
  on_packet node received = (
    record node { packets_received = (node.packets_received + 1) % 2 ^ 32 },
    answers node (decode received),
  )
