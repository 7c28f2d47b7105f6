-- ===== src/Node/Sending.antt =====
-- publish, publish_dynamic and send_datagram_ of components/mpubsub/multicast_pubsub.cpp.
use esphome_mpubsub.Base.{ℕ, ◌+◌, ◌-◌, ◌/◌, ◌%◌, ◌^◌}
use esphome_mpubsub.Base.{
  Bool, true, false, not, ltb, if◌then◌else◌, List, [], ◌∷◌, ◌++◌, Bytes, length, replicate,
}
use esphome_mpubsub.Wire.Words.{bytes_to_words_le, words_to_bytes_le}
use esphome_mpubsub.Node.Topic.{topic_to_group, topic_crc32}
use esphome_mpubsub.Node.Format.{
  max_payload, Encoding, protobuf, unencrypted, xxtea, xxtea_ciphertext_len, encode_header,
}
use esphome_mpubsub.Node.{Cipher, Node, Outgoing}
use esphome_mpubsub.Node.Timers.{TimerCall, schedule_retransmits}

-- The bytes under the cipher: the checksum, the payload, and zeros up to the length.
unfoldable pub secret_body : ℕ → ℕ → Bytes → Bytes
secret_body body_len crc payload =
    crc % 256
    ∷ crc / 2 ^ 8 % 256
    ∷ crc / 2 ^ 16 % 256
    ∷ crc / 2 ^ 24 % 256
    ∷ (payload ++ replicate (body_len - 4 - length payload) 0)

-- What publish did: `attempts` are the datagrams that sendto was given.
pub record Published : Type 0 where
  pub node : Node
  pub attempts : List Outgoing
  pub timers : List TimerCall
  pub published : Bool

abbrev pub refused : Node → Published
refused node = record { node = node; attempts = []; timers = []; published = false }

-- `sends` is whether sendto succeeds.
unfoldable pub send_and_schedule : Bool → Bytes → Outgoing → Node → Published
send_and_schedule sends topic d node =
    let counted = record node { packets_sent = (node.packets_sent + 1) % 2 ^ 32 } in
    let (scheduled, timers) = schedule_retransmits topic d counted in
    if not sends
    then record { node = node; attempts = d ∷ []; timers = []; published = false }
    else record { node = scheduled; attempts = d ∷ []; timers = timers; published = true }

module _ (cipher : Cipher) (sha256 : Bytes → Bytes) where
  unfoldable pub node_datagram : Node → Bytes → Bytes → Encoding → Bytes
  node_datagram node topic payload encoding =
      let crc = topic_crc32 topic in
      let size = length payload % 2 ^ 16 in
      if node.encryption_enabled
      then encode_header crc encoding size xxtea
        ++ words_to_bytes_le (
            cipher.encrypt
              (bytes_to_words_le (secret_body (xxtea_ciphertext_len (length payload)) crc payload))
              (bytes_to_words_le node.encryption_key_bytes))
      else encode_header crc encoding size unencrypted ++ payload

  unfoldable pub publish : Bool → Bytes → Bytes → Encoding → Node → Published
  publish sends topic payload encoding node =
      let effective_max = if node.encryption_enabled then max_payload - 4 else max_payload in
      if not node.socket
      then refused node
      else if ltb effective_max (length payload)
      then refused node
      else send_and_schedule sends topic
          (record {
            datagram = node_datagram node topic payload encoding;
            group = topic_to_group sha256 topic node.scope;
          })
          node

  unfoldable pub publish_dynamic : Bool → Bytes → ℕ → Bytes → Node → Published
  publish_dynamic sends topic schema_id proto_bytes node =
      if ltb max_payload (length proto_bytes + 2)
      then refused node
      else publish sends topic (schema_id % 2 ^ 8 ∷ schema_id / 2 ^ 8 % 2 ^ 8 ∷ proto_bytes)
          protobuf node
