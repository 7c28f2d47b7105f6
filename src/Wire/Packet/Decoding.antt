-- ===== src/Wire/Packet/Decoding.antt =====
-- What DecodePacket accepts, from any bytes that arrive.
use esphome_mpubsub.Base.{ℕ, zero, suc, ◌+◌, ◌-◌, ◌*◌, ◌/◌, ◌≤◌, ◌<◌, ◌≡◌, refl, ap, sym, ◌∙◌, ◌≢◌}
use esphome_mpubsub.Base.{arith, ltb, ◌==◌, true, false, if◌then◌else◌}
use esphome_mpubsub.Base.{[], ◌∷◌, Bytes, length, take, drop, set, get_or, length-drop, length-set}
use esphome_mpubsub.Base.{length-take_le, get_or-set_ne, Option, none, some, ok}
use native.Mathlib.Decide.{ℕ_discrete}
use esphome_mpubsub.Wire.Words.{get_u16, bytes_to_words_le, words_to_bytes_le}
use esphome_mpubsub.Wire.Words.{length-bytes_to_words_le, length-words_to_bytes_le}
use esphome_mpubsub.Wire.Xxtea.{xxtea_decrypt}
use esphome_mpubsub.Wire.Xxtea.Lengths.{length-xxtea_decrypt}
use esphome_mpubsub.Wire.Packet.{DecodedPacket, decode_packet, decode_encrypted, decrypt_with}
use esphome_mpubsub.Wire.Packet.{xxtea_ciphertext_len}
use esphome_mpubsub.Wire.Packet.Sizes.{xxtea_ciphertext_len_lem, xxtea_ciphertext_len_bounds}
use esphome_mpubsub.Wire.Packet.RoundTrip.{KnownEncoding}

abbrev declared_len : Bytes → ℕ
declared_len received = get_u16 (get_or received 8 0) (get_or received 9 0)

abbrev header_of : Bytes → Bytes
header_of received = take 12 received

-- The facts of a packet that was decoded from `received` by a holder of `key`.
pub record IsReceived (received : Bytes) (key : Option Bytes) (p : DecodedPacket) : Type 0 where
  pub whole : 12 ≤ length received
  pub magic : (get_or received 0 0 ≡ b'M') × (get_or received 1 0 ≡ b'P')
  pub version : get_or received 2 0 ≡ 1
  pub known : KnownEncoding p.encoding
  pub encoding_byte : p.encoding ≡ get_or received 3 0
  pub mode_byte : p.enc_mode ≡ get_or received 10 0
  pub mode_flag : p.was_encrypted ≡ (p.enc_mode == 1)
  pub declared : length p.payload ≡ declared_len received
  pub keyed : p.was_encrypted ≡ true → (k : Bytes) × (key ≡ some k) × (length k ≡ 32)
  pub in_clear : p.was_encrypted ≡ false → p.payload ≡ drop 12 received

-- The slice `plain[4 : 4+payloadLen]` is in range.
length-decrypted :
    (received key : Bytes) (n : ℕ)
    → length received ≡ 12 + xxtea_ciphertext_len n
    → length (
        take n (
          drop 4 (
            words_to_bytes_le
              (xxtea_decrypt (bytes_to_words_le (drop 12 received)) (bytes_to_words_le key)))))
      ≡ n
length-decrypted received key n e =
    let ws = bytes_to_words_le (drop 12 received) in
    let quarter = if ltb n 4 then 2 else (n + 7) / 4 in
    let body-len : length (drop 12 received) ≡ 4 * quarter =
      length-drop 12 received
      ∙ ap (λ (t : ℕ). t - 12) e
      ∙ omega arith
      ∙ xxtea_ciphertext_len_lem n in
    let plain-len =
      length-words_to_bytes_le (xxtea_decrypt ws (bytes_to_words_le key))
      ∙ ap (λ (t : ℕ). 4 * t)
          (length-xxtea_decrypt ws (bytes_to_words_le key)
            ∙ length-bytes_to_words_le quarter (drop 12 received) body-len)
      ∙ sym (xxtea_ciphertext_len_lem n) in
    length-take_le n _ (
      omega (
        arith,
        length-drop 4 (words_to_bytes_le (xxtea_decrypt ws (bytes_to_words_le key))),
        plain-len,
        xxtea_ciphertext_len_bounds n,
      ))

module _ (received : Bytes) (p : DecodedPacket) where
  encrypted-IsReceived :
      (enc n : ℕ) (key : Option Bytes)
      → decode_encrypted received enc n key ≡ ok p
      → (p.encoding ≡ enc)
        × (p.enc_mode ≡ 1)
        × (p.was_encrypted ≡ true)
        × (length p.payload ≡ n)
        × (k : Bytes) × (key ≡ some k)
        × (length k ≡ 32)
  unfolding decode_encrypted decrypt_with
  encrypted-IsReceived enc n none h = ground arith
  encrypted-IsReceived enc n (some k) h = (
    ground arith,
    ground arith,
    ground arith,
    ground (arith, length-decrypted received k n),
    k,
    refl,
    ground arith,
  )

  module _ (key : Option Bytes) (h : decode_packet received key ≡ ok p) where
    abbrev mode : ℕ
    mode = get_or received 10 0

    header_checked :
        (12 ≤ length received)
        × (get_or received 0 0 ≡ b'M')
        × (get_or received 1 0 ≡ b'P')
        × (get_or received 2 0 ≡ 1)
        × KnownEncoding (get_or received 3 0)
    unfolding decode_packet
    header_checked = (ground arith, ground arith, ground arith, ground arith, ground arith)

    reached_encrypted :
        mode ≡ 1
        → decode_encrypted received (get_or received 3 0) (declared_len received) key ≡ ok p
    unfolding decode_packet
    reached_encrypted e = ground arith

    reached_clear :
        mode ≢ 1
        → (p.encoding ≡ get_or received 3 0)
          × (p.enc_mode ≡ mode)
          × (p.was_encrypted ≡ false)
          × (p.payload ≡ drop 12 received)
          × (declared_len received + 12 ≡ length received)
          × (mode ≡ 0)
    unfolding decode_packet
    reached_clear e = ground arith

  -- A packet that is decoded stands behind a whole header with the right magic and version, has the
  -- encoding and the mode of its bytes, and exactly as many bytes of payload as the header says. It
  -- is marked as encrypted just where the mode byte is 1, which takes a key of 32 bytes; otherwise
  -- the payload is all that follows the header.
  pub decode_packet-IsReceived :
      (key : Option Bytes) → decode_packet received key ≡ ok p → IsReceived received key p
  decode_packet-IsReceived key h = elim (ℕ_discrete (get_or received 10 0) 1) [
    | yes e ↦
        let (a, b, c, d, k, f, g) = encrypted-IsReceived _ _ key (reached_encrypted key h e) in
        let (whole, m0, m1, v, known) = header_checked key h in
        record {
          whole = whole;
          magic = (m0, m1);
          version = v;
          known = rw a known;
          encoding_byte = a;
          mode_byte = b ∙ sym e;
          mode_flag = rw (b, c) refl;
          declared = d;
          keyed = λ _. (k, f, g);
          in_clear = λ q. cc;
        }
    | no e ↦
        let (a, b, c, d, f, g) = reached_clear key h e in
        let (whole, m0, m1, v, known) = header_checked key h in
        record {
          whole = whole;
          magic = (m0, m1);
          version = v;
          known = rw a known;
          encoding_byte = a;
          mode_byte = b;
          mode_flag = rw (b, g, c) refl;
          declared = rw d (omega (arith, length-drop 12 received));
          keyed = λ q. cc;
          in_clear = λ _. d;
        }
  ]

drop-set : (n i v : ℕ) (xs : Bytes) → i < n → drop n (set xs i v) ≡ drop n xs
drop-set zero i v xs h = absurd (omega arith)
drop-set (suc n) i v [] h = refl
drop-set (suc n) zero v (x ∷ xs) h = refl
drop-set (suc n) (suc i) v (x ∷ xs) h = drop-set n i v xs (omega arith)

decrypt_with_reserved :
    (received : Bytes) (key : Option Bytes) (v enc n : ℕ)
    → decrypt_with (set received 11 v) enc n key ≡ decrypt_with received enc n key
unfolding decrypt_with
decrypt_with_reserved received none v enc n = refl
decrypt_with_reserved received (some k) v enc n = rw (drop-set 12 11 v received (omega arith)) refl

-- Byte 11 is reserved: whatever it holds, the outcome is the same, also the error.
pub decode_packet_reserved :
    (received : Bytes) (key : Option Bytes) (v : ℕ)
    → decode_packet (set received 11 v) key ≡ decode_packet received key
unfolding decode_packet decode_encrypted
decode_packet_reserved received key v =
    let other = λ (i : ℕ) (ne : 11 ≢ i). get_or-set_ne received 11 i v 0 ne in
    rw
      (
        length-set received 11 v,
        other 0 (omega arith),
        other 1 (omega arith),
        other 2 (omega arith),
        other 3 (omega arith),
        other 4 (omega arith),
        other 5 (omega arith),
        other 6 (omega arith),
        other 7 (omega arith),
        other 8 (omega arith),
        other 9 (omega arith),
        other 10 (omega arith),
        drop-set 12 11 v received (omega arith),
        decrypt_with_reserved received key v,
      )
      refl
