-- ===== src/Node/Interop/Heard.antt =====
-- What a node makes of a datagram is what the bridge's DecodePacket does.
use esphome_mpubsub.Base.{
  ℕ, ◌+◌, ◌*◌, ◌≤◌, ◌≡◌, refl, ap, ◌∙◌, sym, arith, ltb, leb, ◌==◌, Bool, true, false, not, ◌&&◌,
  ◌||◌, if◌then◌else◌, Bool-cases, inl, inr,
}
use esphome_mpubsub.Base.{
  List, [], Bytes, length, get_or, drop, All, All-get_or, length-drop, IsByte, Option, Result, ok,
  err,
}
use esphome_mpubsub.Wire.Words.{
  get_u32, get_u16, bytes_to_words_le, words_to_bytes_le, length-bytes_to_words_le,
  bytes_to_words_le-IsU32,
}
use esphome_mpubsub.Wire.Xxtea.{xxtea_decrypt}
use esphome_mpubsub.Wire.Packet
use esphome_mpubsub.Wire.Packet.{WireError, decode_packet, decode_encrypted, decrypt_with}
use esphome_mpubsub.Wire.Packet.Sizes.{xxtea_ciphertext_len_lem}
use esphome_mpubsub.Node.Format.{
  Encoding, raw, protobuf, encoding_of, mode_of, unencrypted, xxtea, four_bytes, two_bytes,
  wrong_length, decode,
}
use esphome_mpubsub.Node.Format
use esphome_mpubsub.Node.{
  Cipher, Node, Invocation, deliver, deliver_decrypted, dispatched, answers, on_packet,
}
use esphome_mpubsub.Node.Interop.Framing.{
  two_bytes_lem, four_bytes_lem, All-drop, words_to_bytes_le-IsByte,
}
use esphome_mpubsub.Node.Interop.{IsXxtea, HasKeyField, key_of, ciphertext_len_lem}
use esphome_mpubsub.Node.Interop.Sent.{quarter}

-- The callbacks that a packet of DecodePacket leads to.
abbrev pub heard : Node → Result WireError Packet.DecodedPacket → List Invocation
heard node (ok p) =
    deliver node.subscriptions p.topic_crc (encoding_of p.encoding) p.payload p.was_encrypted
heard node (err x) = []

module _ (cipher : Cipher) (same : IsXxtea cipher) (node : Node) (field : HasKeyField node)
    (received : Bytes) (bytes : All IsByte received) where
  at-IsByte : (i : ℕ) → IsByte (get_or received i 0)
  at-IsByte i = All-get_or IsByte received i 0 (omega arith) bytes

  abbrev node_packet : Format.DecodedPacket
  node_packet = record {
    topic_crc =
        four_bytes (get_or received 4 0) (get_or received 5 0) (get_or received 6 0)
          (get_or received 7 0);
    encoding = encoding_of (get_or received 3 0);
    enc_mode = mode_of (get_or received 10 0);
    plaintext_len = two_bytes (get_or received 8 0) (get_or received 9 0);
    payload = drop 12 received;
  }

  abbrev on_node : List Invocation
  on_node = answers cipher node (decode received)

  abbrev on_bridge : List Invocation
  on_bridge = heard node (decode_packet received (key_of node))

  -- Whether the header is one that both sides drop, whatever the lengths.
  abbrev bad : Bool
  bad =
      let at = λ (i : ℕ). get_or received i 0 in
      not (leb 12 (length received))
      || (not (at 0 == b'M') || not (at 1 == b'P'))
      || not (at 2 == 1)
      || (not (at 3 == 0) && not (at 3 == 1))
      || (not (at 10 == 0) && not (at 10 == 1))

  bad_header : bad ≡ true → on_node ≡ on_bridge
  unfolding decode decode_packet
  bad_header h = ground arith

  abbrev declared : ℕ
  declared = get_u16 (get_or received 8 0) (get_or received 9 0)

  declared_lem : two_bytes (get_or received 8 0) (get_or received 9 0) ≡ declared
  declared_lem = two_bytes_lem (get_or received 8 0) (get_or received 9 0) (at-IsByte 8)

  clear_decode :
      bad ≡ false
      → get_or received 10 0 ≡ 0
      → decode received ≡ (
          if not (12 + declared == length received)
          then err Format.length_mismatch
          else ok node_packet)
  unfolding decode wrong_length
  clear_decode h mode = ground (arith, declared_lem)

  clear_decode_packet :
      (key : Option Bytes)
      → bad ≡ false
      → get_or received 10 0 ≡ 0
      → decode_packet received key ≡ (
          if not (declared + 12 == length received)
          then err Packet.length_mismatch
          else ok (record {
            topic_crc =
                get_u32
                  (get_or received 4 0)
                  (get_or received 5 0)
                  (get_or received 6 0)
                  (get_or received 7 0);
            encoding = get_or received 3 0;
            enc_mode = 0;
            was_encrypted = false;
            payload = drop 12 received;
          }))
  unfolding decode_packet
  clear_decode_packet key h mode = ground arith

  secret_decode :
      bad ≡ false
      → get_or received 10 0 ≡ 1
      → decode received ≡ (
          if not (length received == 12 + Packet.xxtea_ciphertext_len declared)
          then err Format.ciphertext_too_short
          else ok node_packet)
  unfolding decode wrong_length
  secret_decode h mode = ground (arith, declared_lem, ciphertext_len_lem declared)

  secret_decode_packet :
      (key : Option Bytes)
      → bad ≡ false
      → get_or received 10 0 ≡ 1
      → decode_packet received key ≡ decode_encrypted received (get_or received 3 0) declared key
  unfolding decode_packet
  secret_decode_packet key h mode = ground arith

  heard_clear : bad ≡ false → get_or received 10 0 ≡ 0 → on_node ≡ on_bridge
  unfolding dispatched
  heard_clear h mode = elim (Bool-cases (declared + 12 == length received)) [
    | inl fits ↦
        let fits' : (12 + declared == length received) ≡ true = ground arith in
        let crc =
          four_bytes_lem (get_or received 4 0) (get_or received 5 0) (get_or received 6 0)
            (get_or received 7 0) (at-IsByte 4) (at-IsByte 5) (at-IsByte 6) in
        ap (answers cipher node) (clear_decode h mode)
        ∙ rw (fits, fits', mode, crc) refl
        ∙ sym (ap (heard node) (clear_decode_packet (key_of node) h mode))
    | inr not_fit ↦
        let not_fit' : (12 + declared == length received) ≡ false = ground arith in
        ap (answers cipher node) (clear_decode h mode)
        ∙ rw (not_fit, not_fit') refl
        ∙ sym (ap (heard node) (clear_decode_packet (key_of node) h mode))
  ]

  module _ (small : length received ≤ 1232) (h : bad ≡ false) (mode : get_or received 10 0 ≡ 1)
      (fits : (length received == 12 + Packet.xxtea_ciphertext_len declared) ≡ true) where
    abbrev cipher_words : List ℕ
    cipher_words = bytes_to_words_le (drop 12 received)

    decrypted_lem :
        cipher.decrypt cipher_words (bytes_to_words_le node.encryption_key_bytes)
        ≡ xxtea_decrypt cipher_words (bytes_to_words_le node.encryption_key_bytes)
    decrypted_lem =
        let (long, key_bytes) = field in
        let four : length (drop 12 received) ≡ 4 * quarter declared =
          ground (arith, length-drop 12 received, xxtea_ciphertext_len_lem declared) in
        let words = length-bytes_to_words_le (quarter declared) (drop 12 received) four in
        let two : 2 ≤ quarter declared = ground arith in
        same.decrypts cipher_words (bytes_to_words_le node.encryption_key_bytes) (rw words two)
          (length-bytes_to_words_le 8 node.encryption_key_bytes long)
          (bytes_to_words_le-IsU32 (quarter declared) (drop 12 received) four
            (All-drop 12 received bytes))
          (bytes_to_words_le-IsU32 8 node.encryption_key_bytes long key_bytes)

    abbrev work : Bytes
    work =
        words_to_bytes_le (xxtea_decrypt cipher_words (bytes_to_words_le node.encryption_key_bytes))

    through :
        answers cipher node (ok node_packet)
          ≡ heard node (decode_encrypted received (get_or received 3 0) declared (key_of node))
        → on_node ≡ on_bridge
    through e =
        ap (answers cipher node) (secret_decode h mode)
        ∙ rw fits e
        ∙ sym (ap (heard node) (secret_decode_packet (key_of node) h mode))

    heard_keyed : node.encryption_enabled ≡ true → on_node ≡ on_bridge
    unfolding dispatched deliver_decrypted decode_encrypted decrypt_with
    heard_keyed on =
        let (long, key_bytes) = field in
        let room : ltb 1232 (length (drop 12 received)) ≡ false =
          ground (arith, length-drop 12 received) in
        let byte =
          λ (i : ℕ). All-get_or IsByte work i 0 (omega arith) (words_to_bytes_le-IsByte _) in
        let crc =
          four_bytes_lem (get_or work 0 0) (get_or work 1 0) (get_or work 2 0) (get_or work 3 0)
            (byte 0) (byte 1) (byte 2) in
        through (
          rw (dispatched, mode, deliver_decrypted, on, room, decrypted_lem)
            (rw (decode_encrypted, fits, decrypt_with, long, crc, declared_lem) refl))

    heard_keyless : node.encryption_enabled ≡ false → on_node ≡ on_bridge
    unfolding dispatched deliver_decrypted decode_encrypted decrypt_with
    heard_keyless off =
        through (rw (dispatched, mode, deliver_decrypted, off) (rw (decode_encrypted, fits) refl))

  heard_header : length received ≤ 1232 → bad ≡ false → on_node ≡ on_bridge
  unfolding decode_encrypted
  heard_header small h = elim (Bool-cases (get_or received 10 0 == 0)) [
    | inl zero_mode ↦ heard_clear h (ground arith)
    | inr other ↦
        let mode : get_or received 10 0 ≡ 1 = ground arith in
        elim (Bool-cases (length received == 12 + Packet.xxtea_ciphertext_len declared)) [
          | inl fits ↦ elim (Bool-cases node.encryption_enabled) [
            | inl on ↦ heard_keyed small h mode fits on
            | inr off ↦ heard_keyless small h mode fits off
          ]
          | inr misfit ↦
              ap (answers cipher node) (secret_decode h mode)
              ∙ rw (misfit, decode_encrypted) refl
              ∙ sym (ap (heard node) (secret_decode_packet (key_of node) h mode))
        ]
  ]

  -- Where ESPHome's cipher is that of wire.go and the node's key has 32 bytes: a datagram of at most
  -- 1232 bytes leads a node to the callbacks that its subscriptions have for
  -- the packet that DecodePacket makes of it with the node's key, and to none where DecodePacket
  -- refuses it.
  pub on_packet-decode_packet :
      length received ≤ 1232
      → (on_packet cipher node received).1 ≡ heard node (decode_packet received (key_of node))
  unfolding on_packet
  on_packet-decode_packet small = elim (Bool-cases bad) [
    | inl dropped ↦ bad_header dropped
    | inr kept ↦ heard_header small kept
  ]
