-- ===== src/Wire/Packet.antt =====
-- The datagram of wire.go. `none` is a nil key; a byte slice is the list of its bytes.
pub mod Sizes
pub mod RoundTrip
pub mod Encrypted
pub mod Encoding
pub mod Decoding
use esphome_mpubsub.Base.{ℕ, ◌+◌, ◌-◌, ◌^◌, ◌%◌, bit_and}
use esphome_mpubsub.Base.{Bool, true, false, not, ◌&&◌, ◌||◌, ◌==◌, ltb, if◌then◌else◌}
use esphome_mpubsub.Base.{◌∷◌, ◌++◌, Bytes, length, get_or, take, drop, replicate}
use esphome_mpubsub.Base.{Option, none, some, Result, ok, err, ◌>>=◌}
use esphome_mpubsub.Wire.Words.{put_u32, get_u32, put_u16, get_u16}
use esphome_mpubsub.Wire.Words.{bytes_to_words_le, words_to_bytes_le}
use esphome_mpubsub.Wire.Xxtea.{xxtea_encrypt, xxtea_decrypt}
use esphome_mpubsub.Wire.Crc32.{crc32}

abbrev pub wire_magic0 : ℕ
wire_magic0 = b'M'

abbrev pub wire_magic1 : ℕ
wire_magic1 = b'P'

abbrev pub wire_version : ℕ
wire_version = 1

abbrev pub header_len : ℕ
header_len = 12

abbrev pub max_datagram : ℕ
max_datagram = 1232

abbrev pub max_payload : ℕ
max_payload = max_datagram - header_len

abbrev pub encoding_raw : ℕ
encoding_raw = 0

abbrev pub encoding_proto : ℕ
encoding_proto = 1

abbrev pub enc_mode_none : ℕ
enc_mode_none = 0

abbrev pub enc_mode_xxtea : ℕ
enc_mode_xxtea = 1

-- One constructor for each error that wire.go returns, with the values that its text shows.
pub data WireError : Type 0 where
  encode_unknown_encoding : ℕ → WireError
  payload_too_large : ℕ → WireError
  bad_key_length : ℕ → WireError
  encrypted_payload_too_large : ℕ → ℕ → WireError
  unknown_scope : Bytes → WireError
  too_short bad_magic bad_version unknown_encoding length_mismatch : WireError
  unknown_enc_mode ciphertext_too_short encrypted_no_key : WireError

-- `a &^ b` clears in `a` the bits that `b` has.
abbrev pub and_not : ℕ → ℕ → ℕ
and_not a b = a - bit_and a b

unfoldable pub xxtea_ciphertext_len : ℕ → ℕ
xxtea_ciphertext_len plaintext_len =
    let needed = plaintext_len + 4 in if ltb needed 8 then 8 else and_not (needed + 3) 3

unfoldable pub topic_crc32 : Bytes → ℕ
topic_crc32 topic = crc32 topic

-- What the two branches of EncodePacket assign.
pub record Body : Type 0 where
  pub body : Bytes
  pub enc_mode : ℕ
  pub hdr_crc : ℕ

-- `[topic_crc32 LE] || payload`, in `clen` bytes that are zero behind them.
unfoldable pub plaintext : ℕ → ℕ → Bytes → Bytes
plaintext clen crc payload = put_u32 crc ++ (payload ++ replicate (clen - (length payload + 4)) 0)

unfoldable pub encode_body : ℕ → Bytes → Option Bytes → Result WireError Body
encode_body crc payload none =
    if ltb max_payload (length payload)
    then err (payload_too_large (length payload))
    else ok (record { body = payload; enc_mode = enc_mode_none; hdr_crc = crc })
encode_body crc payload (some key) =
    let clen = xxtea_ciphertext_len (length payload) in
    if not (length key == 32)
    then err (bad_key_length (length key))
    else if ltb max_datagram (header_len + clen)
    then err (encrypted_payload_too_large (length payload) clen)
    else ok (record {
      body =
          words_to_bytes_le (
            xxtea_encrypt (bytes_to_words_le (plaintext clen crc payload)) (bytes_to_words_le key));
      enc_mode = enc_mode_xxtea;
      hdr_crc = 0;
    })

unfoldable pub datagram : ℕ → ℕ → Body → Bytes
datagram encoding payload_len b =
    wire_magic0
    ∷ wire_magic1
    ∷ wire_version
    ∷ encoding
    ∷ (put_u32 b.hdr_crc ++ (put_u16 (payload_len % 2 ^ 16) ++ b.enc_mode ∷ 0 ∷ b.body))

unfoldable pub encode_packet : Bytes → Bytes → ℕ → Option Bytes → Result WireError Bytes
encode_packet topic payload encoding key =
    if not (encoding == encoding_raw) && not (encoding == encoding_proto)
    then err (encode_unknown_encoding encoding)
    else do
      b ← encode_body (topic_crc32 topic) payload key
      ok (datagram encoding (length payload) b)

pub record DecodedPacket : Type 0 where
  pub topic_crc : ℕ
  pub encoding : ℕ
  pub enc_mode : ℕ
  pub was_encrypted : Bool
  pub payload : Bytes

-- The branch of DecodePacket for ENC_MODE XXTEA, once the length is right.
unfoldable pub decrypt_with : Bytes → ℕ → ℕ → Option Bytes → Result WireError DecodedPacket
decrypt_with received enc payload_len none = err encrypted_no_key
decrypt_with received enc payload_len (some key) =
    if not (length key == 32)
    then err (bad_key_length (length key))
    else let plain =
        words_to_bytes_le
          (xxtea_decrypt (bytes_to_words_le (drop header_len received)) (bytes_to_words_le key)) in
      ok (record {
        topic_crc =
            get_u32 (get_or plain 0 0) (get_or plain 1 0) (get_or plain 2 0) (get_or plain 3 0);
        encoding = enc;
        enc_mode = enc_mode_xxtea;
        was_encrypted = true;
        payload = take payload_len (drop 4 plain);
      })

unfoldable pub decode_encrypted : Bytes → ℕ → ℕ → Option Bytes → Result WireError DecodedPacket
decode_encrypted received enc payload_len key =
    if not (length received == header_len + xxtea_ciphertext_len payload_len)
    then err ciphertext_too_short
    else decrypt_with received enc payload_len key

unfoldable pub decode_packet : Bytes → Option Bytes → Result WireError DecodedPacket
decode_packet received key =
    let at = λ (i : ℕ). get_or received i 0 in
    let enc = at 3 in
    let mode = at 10 in
    let hdr_crc = get_u32 (at 4) (at 5) (at 6) (at 7) in
    let payload_len = get_u16 (at 8) (at 9) in
    if ltb (length received) header_len
    then err too_short
    else if not (at 0 == wire_magic0) || not (at 1 == wire_magic1)
    then err bad_magic
    else if not (at 2 == wire_version)
    then err bad_version
    else if not (enc == encoding_raw) && not (enc == encoding_proto)
    then err unknown_encoding
    else if not (mode == enc_mode_none) && not (mode == enc_mode_xxtea)
    then err unknown_enc_mode
    else if mode == enc_mode_xxtea
    then decode_encrypted received enc payload_len key
    else if not (payload_len + header_len == length received)
    then err length_mismatch
    else ok (record {
      topic_crc = hdr_crc;
      encoding = enc;
      enc_mode = mode;
      was_encrypted = false;
      payload = drop header_len received;
    })
