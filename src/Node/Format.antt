-- ===== src/Node/Format.antt =====
-- The header of components/mpubsub/wire_format.h and wire_format.cpp.
use esphome_mpubsub.Base.{ℕ, ◌+◌, ◌-◌, ◌*◌, ◌/◌, ◌%◌, ◌^◌, bit_and, bit_or}
use esphome_mpubsub.Base.{Bool, not, ◌||◌, ◌==◌, ltb, if◌then◌else◌}
use esphome_mpubsub.Base.{[], ◌∷◌, Bytes, length, get_or, drop, Result, ok, err}

abbrev pub magic0 : ℕ
magic0 = b'M'

abbrev pub magic1 : ℕ
magic1 = b'P'

abbrev pub version : ℕ
version = 1

abbrev pub header_len : ℕ
header_len = 12

abbrev pub max_datagram : ℕ
max_datagram = 1232

abbrev pub max_payload : ℕ
max_payload = max_datagram - header_len

pub data Encoding : Type 0 where
  raw protobuf : Encoding

pub data EncMode : Type 0 where
  unencrypted xxtea : EncMode

-- The byte of an encoding and of a mode, and the `static_cast` of one that is known.
abbrev pub encoding_byte : Encoding → ℕ
encoding_byte raw = 0
encoding_byte protobuf = 1

abbrev pub mode_byte : EncMode → ℕ
mode_byte unencrypted = 0
mode_byte xxtea = 1

abbrev pub encoding_of : ℕ → Encoding
encoding_of b = if b == 0 then raw else protobuf

abbrev pub mode_of : ℕ → EncMode
mode_of b = if b == 0 then unencrypted else xxtea

abbrev pub is_known_encoding : ℕ → Bool
is_known_encoding value = (value == encoding_byte raw) || (value == encoding_byte protobuf)

abbrev pub is_known_enc_mode : ℕ → Bool
is_known_enc_mode value = (value == mode_byte unencrypted) || (value == mode_byte xxtea)

-- `~size_t{3}` clears the two lowest bits.
unfoldable pub xxtea_ciphertext_len : ℕ → ℕ
xxtea_ciphertext_len payload_len =
    let needed = payload_len + 4 in
    if ltb needed 8 then 8 else (needed + 3) - bit_and (needed + 3) 3

pub data DecodeError : Type 0 where
  too_short bad_magic bad_version unknown_encoding length_mismatch : DecodeError
  unknown_enc_mode ciphertext_too_short : DecodeError

pub record DecodedPacket : Type 0 where
  pub topic_crc : ℕ
  pub encoding : Encoding
  pub enc_mode : EncMode
  pub plaintext_len : ℕ
  pub payload : Bytes

abbrev pub header_crc : ℕ → EncMode → ℕ
header_crc topic_crc unencrypted = topic_crc
header_crc topic_crc xxtea = 0

unfoldable pub encode_header : ℕ → Encoding → ℕ → EncMode → Bytes
encode_header topic_crc encoding payload_len enc_mode =
    let crc = header_crc topic_crc enc_mode in
    magic0
    ∷ magic1
    ∷ version
    ∷ encoding_byte encoding
    ∷ crc % 256
    ∷ crc / 2 ^ 8 % 256
    ∷ crc / 2 ^ 16 % 256
    ∷ crc / 2 ^ 24 % 256
    ∷ payload_len % 256
    ∷ payload_len / 2 ^ 8 % 256
    ∷ mode_byte enc_mode
    ∷ 0
    ∷ []

-- Four bytes and two bytes, lowest first, put together with `|` and `<<`.
unfoldable pub four_bytes : ℕ → ℕ → ℕ → ℕ → ℕ
four_bytes a b c d = bit_or (bit_or (bit_or a (b * 2 ^ 8)) (c * 2 ^ 16)) (d * 2 ^ 24)

unfoldable pub two_bytes : ℕ → ℕ → ℕ
two_bytes a b = bit_or a (b * 2 ^ 8)

-- The lengths that the mode asks for.
unfoldable pub wrong_length : ℕ → ℕ → Bytes → Bool
wrong_length enm payload_len received =
    if enm == mode_byte xxtea
    then not (length received == header_len + xxtea_ciphertext_len payload_len)
    else not (header_len + payload_len == length received)

unfoldable pub decode : Bytes → Result DecodeError DecodedPacket
decode received =
    let at = λ (i : ℕ). get_or received i 0 in
    let payload_len = two_bytes (at 8) (at 9) in
    if ltb (length received) header_len
    then err too_short
    else if not (at 0 == magic0) || not (at 1 == magic1)
    then err bad_magic
    else if not (at 2 == version)
    then err bad_version
    else if not (is_known_encoding (at 3))
    then err unknown_encoding
    else if not (is_known_enc_mode (at 10))
    then err unknown_enc_mode
    else if wrong_length (at 10) payload_len received
    then if at 10 == mode_byte xxtea then err ciphertext_too_short else err length_mismatch
    else ok (record {
      topic_crc = four_bytes (at 4) (at 5) (at 6) (at 7);
      encoding = encoding_of (at 3);
      enc_mode = mode_of (at 10);
      plaintext_len = payload_len;
      payload = drop header_len received;
    })
