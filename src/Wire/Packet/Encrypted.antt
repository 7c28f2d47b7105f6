-- ===== src/Wire/Packet/Encrypted.antt =====
-- EncodePacket with a key, followed by DecodePacket.
use esphome_mpubsub.Base.{ℕ, ◌+◌, ◌*◌, ◌/◌, ◌^◌, ◌≤◌, ◌<◌, ◌≡◌, refl, sym, ap, ◌∙◌}
use esphome_mpubsub.Base.{arith, ltb, true, if◌then◌else◌}
use esphome_mpubsub.Base.{List, Bytes, length, take, drop, get_or, All, IsByte}
use esphome_mpubsub.Base.{Option, some, ok, inl, inr}
use esphome_mpubsub.Base.{take-append_length, ==_refl}
use esphome_mpubsub.Wire.Words.{
  put_u32, get_u32, put_u16, get_u16, bytes_to_words_le, words_to_bytes_le,
}
use esphome_mpubsub.Wire.Crc32.{crc32-lt}
use esphome_mpubsub.Wire.Packet.{encode_body, datagram, encode_packet, plaintext}
use esphome_mpubsub.Wire.Packet.{
  topic_crc32, decode_packet, decode_encrypted, decrypt_with, xxtea_ciphertext_len,
}
use esphome_mpubsub.Wire.Words.{
  bytes_to_words_le-words_to_bytes_le, words_to_bytes_le-bytes_to_words_le,
}
use esphome_mpubsub.Wire.Words.{
  bytes_to_words_le-IsU32, length-bytes_to_words_le, length-words_to_bytes_le,
}
use esphome_mpubsub.Wire.Xxtea.{xxtea_encrypt, xxtea_decrypt}
use esphome_mpubsub.Wire.Xxtea.Inverse.{
  xxtea_encrypt-IsU32, length-xxtea_encrypt, xxtea_decrypt-xxtea_encrypt,
}
use esphome_mpubsub.Wire.Packet.Sizes.{xxtea_ciphertext_len_lem, xxtea_ciphertext_len_bounds}
use esphome_mpubsub.Wire.Packet.Sizes.{
  length-plaintext, plaintext-IsByte, length-datagram, xxtea_ciphertext_len_fits,
}
use esphome_mpubsub.Wire.Packet.RoundTrip.{KnownEncoding, u32_again, encoding_known}

-- The header of an encrypted datagram leads to the decryption.
decode-datagram_xxtea :
    (enc n : ℕ) (b : Bytes) (key : Option Bytes)
    → KnownEncoding enc
    → n < 65536
    → let sent = datagram enc n (record { body = b; enc_mode = 1; hdr_crc = 0 }) in
      decode_packet sent key ≡ decode_encrypted sent enc n key
unfolding decode_packet datagram put_u32 put_u16 get_u16
decode-datagram_xxtea enc n b key (inl e) fits = rw e (ground arith)
decode-datagram_xxtea enc n b key (inr e) fits = rw e (ground arith)

module _ (key : Bytes) (k : ℕ) (p : Bytes) (four : length p ≡ 4 * k) (bytes : All IsByte p) where
  abbrev cipher : Bytes
  cipher = words_to_bytes_le (xxtea_encrypt (bytes_to_words_le p) (bytes_to_words_le key))

  abbrev plain_words : List ℕ
  plain_words = bytes_to_words_le p

  decipher :
      2 ≤ k
      → words_to_bytes_le (xxtea_decrypt (bytes_to_words_le cipher) (bytes_to_words_le key)) ≡ p
  decipher two =
      let words = bytes_to_words_le-IsU32 k p four bytes in
      let len = length-bytes_to_words_le k p four in
      rw
        (
          bytes_to_words_le-words_to_bytes_le _
              (xxtea_encrypt-IsU32 plain_words (bytes_to_words_le key) (rw len two) words),
          xxtea_decrypt-xxtea_encrypt plain_words (bytes_to_words_le key) words,
        )
        (words_to_bytes_le-bytes_to_words_le k p four bytes)

  length-cipher : 2 ≤ k → length cipher ≡ length p
  length-cipher two =
      let len = length-bytes_to_words_le k p four in
      length-words_to_bytes_le _
      ∙ ap (λ (t : ℕ). 4 * t)
          (length-xxtea_encrypt plain_words (bytes_to_words_le key) (rw len two) ∙ len)
      ∙ sym four

-- The payload stands behind the four bytes of the CRC.
payload_back :
    (clen crc : ℕ) (payload : Bytes)
    → take (length payload) (drop 4 (plaintext clen crc payload)) ≡ payload
unfolding plaintext put_u32
payload_back clen crc payload = take-append_length payload _

crc_back :
    (clen crc : ℕ) (payload : Bytes)
    → crc < 2 ^ 32
    → let p = plaintext clen crc payload in
      get_u32 (get_or p 0 0) (get_or p 1 0) (get_or p 2 0) (get_or p 3 0) ≡ crc
unfolding plaintext put_u32
crc_back clen crc payload h = u32_again crc h

module _ (crc enc : ℕ) (payload key : Bytes) (fits : length payload ≤ 1216)
    (key_len : length key ≡ 32) (bytes : All IsByte payload) (known : KnownEncoding enc)
    (small : crc < 2 ^ 32) where
  abbrev clen : ℕ
  clen = xxtea_ciphertext_len (length payload)

  abbrev quarter : ℕ
  quarter = if ltb (length payload) 4 then 2 else (length payload + 7) / 4

  abbrev plain_bytes : Bytes
  plain_bytes = plaintext clen crc payload

  plain_four : length plain_bytes ≡ 4 * quarter
  plain_four =
      length-plaintext clen crc payload ((xxtea_ciphertext_len_bounds (length payload)).0)
      ∙ xxtea_ciphertext_len_lem (length payload)

  two_words : 2 ≤ quarter
  two_words = ground arith

  plain_are_bytes : All IsByte plain_bytes
  plain_are_bytes = plaintext-IsByte clen crc payload bytes

  abbrev encrypted : Bytes
  encrypted = cipher key quarter plain_bytes plain_four plain_are_bytes

  abbrev datagram_out : Bytes
  datagram_out =
      datagram enc (length payload) (record { body = encrypted; enc_mode = 1; hdr_crc = 0 })

  body_back : drop 12 datagram_out ≡ encrypted
  unfolding datagram put_u32 put_u16
  body_back = refl

  length-encrypted : length encrypted ≡ clen
  length-encrypted =
      length-cipher key quarter plain_bytes plain_four plain_are_bytes two_words
      ∙ length-plaintext clen crc payload ((xxtea_ciphertext_len_bounds (length payload)).0)

  length-datagram_out : length datagram_out ≡ 12 + clen
  length-datagram_out =
      length-datagram enc (length payload) _ ∙ ap (λ (t : ℕ). 12 + t) length-encrypted

  decode_encrypted-datagram :
      decode_encrypted datagram_out enc (length payload) (some key)
      ≡ ok (record {
        topic_crc = crc;
        encoding = enc;
        enc_mode = 1;
        was_encrypted = true;
        payload = payload;
      })
  unfolding decode_encrypted decrypt_with
  decode_encrypted-datagram =
      let back = decipher key quarter plain_bytes plain_four plain_are_bytes two_words in
      rw (length-datagram_out, key_len, body_back, back)
        (rw (==_refl (12 + clen), crc_back clen crc payload small, payload_back clen crc payload)
          refl)

  decode-datagram_out :
      decode_packet datagram_out (some key)
      ≡ ok (record {
        topic_crc = crc;
        encoding = enc;
        enc_mode = 1;
        was_encrypted = true;
        payload = payload;
      })
  decode-datagram_out =
      decode-datagram_xxtea enc (length payload) encrypted (some key) known (omega arith)
      ∙ decode_encrypted-datagram

module _ (topic payload key : Bytes) (enc : ℕ) (topic_bytes : All IsByte topic)
    (bytes : All IsByte payload) {sent : Bytes}
    (h : encode_packet topic payload enc (some key) ≡ ok sent) where
  key_len_ok : length key ≡ 32
  unfolding encode_packet encode_body
  key_len_ok = ground arith

  payload_fits : length payload ≤ 1216
  unfolding encode_packet encode_body
  payload_fits = ground (arith, xxtea_ciphertext_len_fits (length payload))

  -- Whatever was encrypted is decoded with the same key to the CRC of the topic, the encoding and
  -- the payload that were given, and is marked as encrypted.
  pub decode_packet-encode_packet_xxtea :
      decode_packet sent (some key)
      ≡ ok (record {
        topic_crc = topic_crc32 topic;
        encoding = enc;
        enc_mode = 1;
        was_encrypted = true;
        payload = payload;
      })
  decode_packet-encode_packet_xxtea =
      let crc : topic_crc32 topic < 2 ^ 32 = unfold topic_crc32 in crc32-lt topic topic_bytes in
      let known = encoding_known topic payload enc topic_bytes (some key) h in
      let shape : datagram_out (topic_crc32 topic) enc payload key payload_fits key_len_ok bytes
            known crc
          ≡ sent =
        unfold encode_packet encode_body in
        ground (arith, xxtea_ciphertext_len_fits (length payload)) in
      rw shape at (
        decode-datagram_out (topic_crc32 topic) enc payload key payload_fits key_len_ok bytes known
          crc)
