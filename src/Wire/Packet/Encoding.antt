-- ===== src/Wire/Packet/Encoding.antt =====
-- When EncodePacket succeeds, how long its datagrams are, and what of the key they depend on.

use esphome_mpubsub.Base.{ℕ, ◌≤◌, ◌≡◌, refl, ◌↔◌, inl, inr}
use esphome_mpubsub.Base.{arith}
use esphome_mpubsub.Base.{Bytes, length, take, Option, none, some, ok, ok_of_no_err, Result-cases}
use esphome_mpubsub.Wire.Words.{bytes_to_words_le, take-bytes_to_words_le}
use esphome_mpubsub.Wire.Xxtea.Key.{xxtea_encrypt_half_key}
use esphome_mpubsub.Wire.Packet.{encode_body, encode_packet, datagram}
use esphome_mpubsub.Wire.Packet.{topic_crc32}
use esphome_mpubsub.Wire.Packet.{Body}
use esphome_mpubsub.Wire.Packet.Sizes.{
  xxtea_ciphertext_len_fits, length-datagram, length-ciphertext,
}
use esphome_mpubsub.Wire.Packet.RoundTrip.{KnownEncoding}

-- Room for the payload, with and without encryption.
abbrev pub Fits : Bytes → Option Bytes → Type 0
Fits payload none = length payload ≤ 1220
Fits payload (some key) = (length key ≡ 32) × (length payload ≤ 1216)

abbrev pub Encodes : Bytes → Bytes → ℕ → Option Bytes → Type 0
Encodes topic payload enc key = (sent : Bytes) × (encode_packet topic payload enc key ≡ ok sent)

Encodes-Fits :
    (topic payload : Bytes) (enc : ℕ) (key : Option Bytes)
    → Encodes topic payload enc key
    → KnownEncoding enc × Fits payload key
unfolding encode_packet encode_body
Encodes-Fits topic payload enc none h = ground arith
Encodes-Fits topic payload enc (some k) h =
    ground (arith, xxtea_ciphertext_len_fits (length payload))

body_exists :
    (crc : ℕ) (payload : Bytes) (key : Option Bytes)
    → Fits payload key
    → (b : Body) × (encode_body crc payload key ≡ ok b)
unfolding encode_body
body_exists crc payload none h = ok_of_no_err (encode_body crc payload none) (λ e p. ground arith)
body_exists crc payload (some k) h =
    ok_of_no_err (encode_body crc payload (some k))
      (λ e p. ground (arith, xxtea_ciphertext_len_fits (length payload)))

Fits-Encodes :
    (topic payload : Bytes) (enc : ℕ) (key : Option Bytes)
    → KnownEncoding enc × Fits payload key
    → Encodes topic payload enc key
unfolding encode_packet
Fits-Encodes topic payload enc key (known, fits) =
    let (b, e) = body_exists (topic_crc32 topic) payload key fits in
    (datagram enc (length payload) b, ground arith)

-- EncodePacket succeeds exactly on the encodings RAW and PROTO with a payload of at most 1220
-- bytes, and with a key exactly where that has 32 bytes and the payload at most 1216.
pub encode_packet_iff :
    (topic payload : Bytes) (enc : ℕ) (key : Option Bytes)
    → Encodes topic payload enc key ↔ (KnownEncoding enc × Fits payload key)
encode_packet_iff topic payload enc key =
    (Encodes-Fits topic payload enc key, Fits-Encodes topic payload enc key)

body_fits :
    (crc : ℕ) (payload : Bytes) (key : Option Bytes) {b : Body}
    → encode_body crc payload key ≡ ok b
    → length b.body ≤ 1220
unfolding encode_body
body_fits crc payload none h = ground arith
body_fits crc payload (some k) h =
    ground (arith, length-ciphertext crc payload k, xxtea_ciphertext_len_fits (length payload))

-- No datagram is longer than 1232 bytes, the payload that IPv6 carries unfragmented; the body is
-- the payload as it is, or its ciphertext.
pub length-encode_packet :
    (topic payload : Bytes) (enc : ℕ) (key : Option Bytes) {sent : Bytes}
    → encode_packet topic payload enc key ≡ ok sent
    → length sent ≤ 1232
unfolding encode_packet
length-encode_packet topic payload enc key {sent} h =
    elim (Result-cases (encode_body (topic_crc32 topic) payload key)) [
      | inl (b, e) ↦ ground (
        arith,
        body_fits (topic_crc32 topic) payload key e,
        length-datagram enc (length payload) b,
      )
      | inr (x, e) ↦ ground arith
    ]

-- Two keys of 32 bytes that agree in the first 16 encode every packet alike: the last 16 bytes of
-- the key take no part.
pub encode_packet_half_key :
    (topic payload k l : Bytes) (enc : ℕ)
    → length k ≡ 32
    → length l ≡ 32
    → take 16 k ≡ take 16 l
    → encode_packet topic payload enc (some k) ≡ encode_packet topic payload enc (some l)
unfolding encode_packet encode_body
encode_packet_half_key topic payload k l enc lk ll same =
    let first = take-bytes_to_words_le k l lk ll same in
    rw (lk, ll, xxtea_encrypt_half_key (bytes_to_words_le k) (bytes_to_words_le l) _ first) refl
