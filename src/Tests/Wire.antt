-- ===== src/Tests/Wire.antt =====
-- The cipher, the datagram and the address at concrete inputs.
use esphome_mpubsub.Base.{◌≤◌, ◌≡◌, ◌↔◌, refl, true, false, [], ◌∷◌, ◌++◌, Bytes, length, take}
use esphome_mpubsub.Base.{set, All, IsByte, none, some, ok, err, lit, replicate, arith}
use esphome_mpubsub.Base.{◌%◌}
use esphome_mpubsub.Wire.Words.{
  put_u32, get_u32, put_u16, get_u16, bytes_to_words_le, words_to_bytes_le,
}
use esphome_mpubsub.Wire.Xxtea.{
  xxtea_mx, key_offset, encrypt_pass, encrypt_round, encrypt_rounds, rounds_for,
}
use esphome_mpubsub.Wire.Xxtea.{xxtea_encrypt, xxtea_decrypt}
use esphome_mpubsub.Wire.Xxtea.Inverse.{xxtea_decrypt-xxtea_encrypt}
use esphome_mpubsub.Wire.Crc32.{crc32}
use esphome_mpubsub.Wire.Packet.{
  encode_packet, encode_body, decode_packet, decode_encrypted, decrypt_with, topic_crc32, datagram,
  plaintext, xxtea_ciphertext_len, too_short, bad_magic, encrypted_no_key, length_mismatch,
}
use esphome_mpubsub.Wire.Packet.RoundTrip.{decode_packet-encode_packet_plain, KnownEncoding}
use esphome_mpubsub.Wire.Packet.Encrypted.{decode_packet-encode_packet_xxtea}
use esphome_mpubsub.Wire.Packet.Encoding.{
  Encodes, Fits, encode_packet_iff, length-encode_packet, encode_packet_half_key,
}
use esphome_mpubsub.Wire.Packet.Decoding.{IsReceived, decode_packet-IsReceived}

abbrev pub topic : Bytes
topic = lit "home/x"

abbrev pub hello : Bytes
hello = lit "hello"

abbrev pub key : Bytes
key = 1 ∷ 2 ∷ 3 ∷ 4 ∷ replicate 28 7

-- The same first 16 bytes, and other ones behind.
abbrev twin_key : Bytes
twin_key = 1 ∷ 2 ∷ 3 ∷ 4 ∷ (replicate 12 7 ++ replicate 16 9)

abbrev plain_sent : Bytes
plain_sent = 77 ∷ 80 ∷ 1 ∷ 0 ∷ 126 ∷ 43 ∷ 149 ∷ 133 ∷ 5 ∷ 0 ∷ 0 ∷ 0 ∷ hello

abbrev pub secret_sent : Bytes
secret_sent =
    77 ∷ 80 ∷ 1 ∷ 0 ∷ 0 ∷ 0 ∷ 0 ∷ 0 ∷ 5 ∷ 0 ∷ 1 ∷ 0 ∷ 239 ∷ 212 ∷ 183 ∷ 48 ∷ 219 ∷ 59 ∷ 84 ∷ 223
    ∷ 45 ∷ 250 ∷ 230 ∷ 226 ∷ []

plain_run : encode_packet topic hello 0 none ≡ ok plain_sent
unfolding encode_packet encode_body datagram topic_crc32 crc32 put_u32 put_u16
plain_run = refl

pub secret_run : encode_packet topic hello 0 (some key) ≡ ok secret_sent
unfolding encode_packet encode_body datagram topic_crc32 crc32 put_u32 put_u16 plaintext
    xxtea_ciphertext_len bytes_to_words_le words_to_bytes_le get_u32 xxtea_encrypt encrypt_rounds
    encrypt_round encrypt_pass rounds_for xxtea_mx key_offset
secret_run = refl

-- Errors of the decoder, one a check.
rejects :
    (decode_packet (take 11 plain_sent) none ≡ err too_short)
    × (decode_packet (set plain_sent 1 0) none ≡ err bad_magic)
    × (decode_packet (set plain_sent 8 6) none ≡ err length_mismatch)
    × (decode_packet secret_sent none ≡ err encrypted_no_key)
unfolding decode_packet decode_encrypted decrypt_with put_u32 get_u32 get_u16 xxtea_ciphertext_len
rejects = (refl, refl, refl, refl)

pub topic_bytes : All IsByte topic
topic_bytes = omega arith

pub hello_bytes : All IsByte hello
hello_bytes = omega arith

xxtea_example :
    xxtea_decrypt
      (xxtea_encrypt (0x11111111 ∷ 0x22222222 ∷ 7 ∷ []) (0 ∷ 1 ∷ 2 ∷ 3 ∷ []))
      (0 ∷ 1 ∷ 2 ∷ 3 ∷ [])
    ≡ 0x11111111 ∷ 0x22222222 ∷ 7 ∷ []
xxtea_example =
    xxtea_decrypt-xxtea_encrypt (0x11111111 ∷ 0x22222222 ∷ 7 ∷ []) (0 ∷ 1 ∷ 2 ∷ 3 ∷ [])
      (omega arith)

plain_example :
    decode_packet plain_sent (some key)
    ≡ ok (record {
      topic_crc = topic_crc32 topic;
      encoding = 0;
      enc_mode = 0;
      was_encrypted = false;
      payload = hello;
    })
plain_example = decode_packet-encode_packet_plain topic hello 0 topic_bytes (some key) plain_run

secret_example :
    decode_packet secret_sent (some key)
    ≡ ok (record {
      topic_crc = topic_crc32 topic;
      encoding = 0;
      enc_mode = 1;
      was_encrypted = true;
      payload = hello;
    })
secret_example =
    decode_packet-encode_packet_xxtea topic hello key 0 topic_bytes hello_bytes secret_run

encode_packet_iff_example :
    Encodes topic hello 1 (some key) ↔ (KnownEncoding 1 × Fits hello (some key))
encode_packet_iff_example = encode_packet_iff topic hello 1 (some key)

length_example : 24 ≤ 1232
length_example = length-encode_packet topic hello 0 (some key) secret_run

half_key_example :
    encode_packet topic hello 0 (some key) ≡ encode_packet topic hello 0 (some twin_key)
half_key_example = encode_packet_half_key topic hello key twin_key 0 refl refl refl

plain_decoded :
    decode_packet plain_sent none
    ≡ ok (record {
      topic_crc = topic_crc32 topic;
      encoding = 0;
      enc_mode = 0;
      was_encrypted = false;
      payload = hello;
    })
plain_decoded = decode_packet-encode_packet_plain topic hello 0 topic_bytes none plain_run

decode_packet-IsReceived_example : IsReceived plain_sent none (record {
  topic_crc = topic_crc32 topic;
  encoding = 0;
  enc_mode = 0;
  was_encrypted = false;
  payload = hello;
})
decode_packet-IsReceived_example = decode_packet-IsReceived plain_sent _ none plain_decoded

-- A stand-in for SHA-256: 32 bytes, the first of which is the length of the message.
abbrev digest : Bytes → Bytes
digest m = (length m % 256) ∷ replicate 31 0

digest_len : (m : Bytes) → length (digest m) ≡ 32
digest_len m = refl
