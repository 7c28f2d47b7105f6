-- ===== src/Node/Interop/Sent.antt =====
-- What a node sends is what the bridge would.
use esphome_mpubsub.Base.{
  ℕ, ◌+◌, ◌*◌, ◌/◌, ◌≤◌, ◌≡◌, refl, ap, ◌∙◌, sym, arith, ltb, Bool, true, false, not, if◌then◌else◌,
  Bool-cases, inl, inr,
}
use esphome_mpubsub.Base.{
  List, [], ◌∷◌, Bytes, length, All, IsByte, Option, none, some, Result, ok, err,
}
use esphome_mpubsub.Wire.Words.{
  bytes_to_words_le, words_to_bytes_le, length-bytes_to_words_le, bytes_to_words_le-IsU32,
}
use esphome_mpubsub.Wire.Xxtea.{xxtea_encrypt}
use esphome_mpubsub.Wire.Address
use esphome_mpubsub.Wire.Packet
use esphome_mpubsub.Wire.Packet.{
  WireError, payload_too_large, encrypted_payload_too_large, plaintext, datagram, encode_body,
  encode_packet,
}
use esphome_mpubsub.Wire.Packet.Sizes.{
  xxtea_ciphertext_len_lem, xxtea_ciphertext_len_bounds, xxtea_ciphertext_len_fits,
  length-plaintext, plaintext-IsByte,
}
use esphome_mpubsub.Node.Topic.{topic_to_group, topic_crc32_lem, topic_to_group_lem}
use esphome_mpubsub.Node.Format.{Encoding, raw, protobuf, encoding_byte}
use esphome_mpubsub.Node.{Cipher, Node, Outgoing}
use esphome_mpubsub.Node.Sending.{node_datagram, refused, send_and_schedule, publish}
use esphome_mpubsub.Node.Interop.Framing.{header_clear, header_secret, secret_body_lem}
use esphome_mpubsub.Node.Interop.{IsXxtea, HasKeyField, key_of, ciphertext_len_lem}

-- The words of a ciphertext.
abbrev pub quarter : ℕ → ℕ
quarter n = if ltb n 4 then 2 else (n + 7) / 4

module _ (cipher : Cipher) (same : IsXxtea cipher) (key : Bytes) (long : length key ≡ 32)
    (key_bytes : All IsByte key) where
  encrypted_lem :
      (crc : ℕ) (payload : Bytes)
      → All IsByte payload
      → let plain = plaintext (Packet.xxtea_ciphertext_len (length payload)) crc payload in
        cipher.encrypt (bytes_to_words_le plain) (bytes_to_words_le key)
        ≡ xxtea_encrypt (bytes_to_words_le plain) (bytes_to_words_le key)
  encrypted_lem crc payload bytes =
      let n = length payload in
      let clen = Packet.xxtea_ciphertext_len n in
      let plain = plaintext clen crc payload in
      let four : length plain ≡ 4 * quarter n =
        length-plaintext clen crc payload ((xxtea_ciphertext_len_bounds n).0)
        ∙ xxtea_ciphertext_len_lem n in
      let words : length (bytes_to_words_le plain) ≡ quarter n =
        length-bytes_to_words_le (quarter n) plain four in
      let two : 2 ≤ quarter n = ground arith in
      same.encrypts (bytes_to_words_le plain) (bytes_to_words_le key) (rw words two)
        (length-bytes_to_words_le 8 key long)
        (bytes_to_words_le-IsU32 (quarter n) plain four (plaintext-IsByte clen crc payload bytes))
        (bytes_to_words_le-IsU32 8 key long key_bytes)

packet_made :
    (topic payload : Bytes) (e : Encoding) (key : Option Bytes) (b : Packet.Body)
    → encode_body (Packet.topic_crc32 topic) payload key ≡ ok b
    → encode_packet topic payload (encoding_byte e) key
      ≡ ok (datagram (encoding_byte e) (length payload) b)
unfolding encode_packet
packet_made topic payload raw key b h = rw (encode_packet, h) refl
packet_made topic payload protobuf key b h = rw (encode_packet, h) refl

packet_refused :
    (topic payload : Bytes) (e : Encoding) (key : Option Bytes) (x : WireError)
    → encode_body (Packet.topic_crc32 topic) payload key ≡ err x
    → encode_packet topic payload (encoding_byte e) key ≡ err x
unfolding encode_packet
packet_refused topic payload raw key x h = rw (encode_packet, h) refl
packet_refused topic payload protobuf key x h = rw (encode_packet, h) refl

-- What is sent where EncodePacket is asked for the packet.
abbrev pub sent_to : Bytes → Result WireError Bytes → List Outgoing
sent_to group (ok pkt) = record { datagram = pkt; group = group } ∷ []
sent_to group (err e) = []

module _ (cipher : Cipher) (sha256 : Bytes → Bytes) (same : IsXxtea cipher) (node : Node)
    (field : HasKeyField node) (topic payload : Bytes) (e : Encoding)
    (payload_bytes : All IsByte payload) where
  encode_clear :
      ltb 1220 (length payload) ≡ false
      → node.encryption_enabled ≡ false
      → encode_packet topic payload (encoding_byte e) (key_of node)
        ≡ ok (node_datagram cipher sha256 node topic payload e)
  unfolding node_datagram encode_body
  encode_clear fits off =
      rw (node_datagram, off)
        (packet_made topic payload e none
            (record { body = payload; enc_mode = 0; hdr_crc = Packet.topic_crc32 topic })
            (rw (encode_body, fits) refl)
          ∙ ap ok (
              rw (topic_crc32_lem topic)
                (sym (header_clear (Packet.topic_crc32 topic) (length payload) e payload))))

  encode_secret :
      ltb 1216 (length payload) ≡ false
      → node.encryption_enabled ≡ true
      → encode_packet topic payload (encoding_byte e) (key_of node)
        ≡ ok (node_datagram cipher sha256 node topic payload e)
  unfolding node_datagram encode_body
  encode_secret fits on =
      let (long, key_bytes) = field in
      let crc = Packet.topic_crc32 topic in
      let key = node.encryption_key_bytes in
      let clen = Packet.xxtea_ciphertext_len (length payload) in
      let body =
        words_to_bytes_le (
          xxtea_encrypt (bytes_to_words_le (plaintext clen crc payload)) (bytes_to_words_le key)) in
      rw (node_datagram, on)
        (packet_made topic payload e (some key) (record { body = body; enc_mode = 1; hdr_crc = 0 })
            (rw (encode_body, long, xxtea_ciphertext_len_fits (length payload), fits) refl)
          ∙ ap ok (
              rw
                (
                  topic_crc32_lem topic,
                  ciphertext_len_lem (length payload),
                  secret_body_lem clen crc payload,
                  encrypted_lem cipher same key long key_bytes crc payload payload_bytes,
                )
                (sym (header_secret crc (length payload) e body))))

  encode_large :
      ltb (if node.encryption_enabled then 1216 else 1220) (length payload) ≡ true
      → (x : WireError) × (encode_packet topic payload (encoding_byte e) (key_of node) ≡ err x)
  unfolding encode_body
  encode_large large = elim (Bool-cases node.encryption_enabled) [
    | inl on ↦
        let (long, key_bytes) = field in
        let over : ltb 1216 (length payload) ≡ true = ground arith in
        (
          encrypted_payload_too_large (length payload)
              (Packet.xxtea_ciphertext_len (length payload)),
          rw on (
              packet_refused topic payload e (some node.encryption_key_bytes)
                (encrypted_payload_too_large (length payload)
                  (Packet.xxtea_ciphertext_len (length payload)))
                (rw (encode_body, long, xxtea_ciphertext_len_fits (length payload), over) refl)),
        )
    | inr off ↦
        let over : ltb 1220 (length payload) ≡ true = ground arith in
        (
          payload_too_large (length payload),
          rw off (
              packet_refused topic payload e none (payload_too_large (length payload))
                (rw (encode_body, over) refl)),
        )
  ]

  encode_fits :
      ltb (if node.encryption_enabled then 1216 else 1220) (length payload) ≡ false
      → encode_packet topic payload (encoding_byte e) (key_of node)
        ≡ ok (node_datagram cipher sha256 node topic payload e)
  encode_fits fits = elim (Bool-cases node.encryption_enabled) [
    | inl on ↦ encode_secret (ground arith) on
    | inr off ↦ encode_clear (ground arith) off
  ]

  attempts_made :
      (sends : Bool) (d : Outgoing) → (send_and_schedule sends topic d node).attempts ≡ d ∷ []
  unfolding send_and_schedule
  attempts_made true d = refl
  attempts_made false d = refl

  -- What publish gives to sendto where there is a socket.
  attempts_open :
      (sends : Bool)
      → node.socket ≡ true
      → (publish cipher sha256 sends topic payload e node).attempts ≡ (
          if ltb (if node.encryption_enabled then 1216 else 1220) (length payload)
          then []
          else record {
            datagram = node_datagram cipher sha256 node topic payload e;
            group = Address.topic_to_group sha256 topic node.scope;
          }
            ∷ [])
  unfolding publish
  attempts_open sends socket =
      let limit = if node.encryption_enabled then 1216 else 1220 in
      let d : Outgoing = record {
        datagram = node_datagram cipher sha256 node topic payload e;
        group = topic_to_group sha256 topic node.scope;
      } in
      ap
        (λ (b : Bool).
          (if not b
            then refused node
            else if ltb limit (length payload)
            then refused node
            else send_and_schedule sends topic d node).attempts)
        socket
      ∙ elim (Bool-cases (ltb limit (length payload))) [
        | inl large ↦ rw large refl
        | inr fits ↦ rw fits (
            attempts_made sends d
            ∙ ap (λ (g : Bytes). record { datagram = d.datagram; group = g } ∷ [])
                (topic_to_group_lem sha256 topic node.scope))
      ]

  -- Where ESPHome's cipher is that of wire.go and the node's key has 32 bytes: a node with a socket
  -- gives sendto just the datagram that EncodePacket makes of the topic, the
  -- payload and the encoding with the node's key, for the group of the topic, and nothing where
  -- EncodePacket refuses them.
  pub publish-encode_packet :
      (sends : Bool)
      → node.socket ≡ true
      → (publish cipher sha256 sends topic payload e node).attempts
        ≡ sent_to
            (Address.topic_to_group sha256 topic node.scope)
            (encode_packet topic payload (encoding_byte e) (key_of node))
  publish-encode_packet sends socket =
      attempts_open sends socket
      ∙ elim (Bool-cases (ltb (if node.encryption_enabled then 1216 else 1220) (length payload))) [
        | inl large ↦ let (x, large_too) = encode_large large in rw (large, large_too) refl
        | inr fits ↦ rw (fits, encode_fits fits) refl
      ]
