-- ===== src/Wire/Packet/RoundTrip.antt =====
-- EncodePacket without a key, followed by DecodePacket.
use esphome_mpubsub.Base.{ℕ, ◌/◌, ◌%◌, ◌^◌, ◌≤◌, ◌<◌, ◌≡◌}
use esphome_mpubsub.Base.{arith, false}
use esphome_mpubsub.Base.{Bytes, length, All, IsByte}
use esphome_mpubsub.Base.{Option, none, ok, ◌⊎◌, inl, inr}
use esphome_mpubsub.Wire.Words.{put_u32, get_u32, put_u16, get_u16}
use esphome_mpubsub.Wire.Crc32.{crc32-lt}
use esphome_mpubsub.Wire.Packet.{encode_body, datagram, encode_packet}
use esphome_mpubsub.Wire.Packet.{topic_crc32, decode_packet}
use esphome_mpubsub.Wire.Packet.{encoding_raw, encoding_proto}

-- A header that the two sides agree on.
abbrev pub KnownEncoding : ℕ → Type 0
KnownEncoding e = (e ≡ encoding_raw) ⊎ (e ≡ encoding_proto)

pub u32_again :
    (w : ℕ)
    → w < 2 ^ 32
    → get_u32 (w % 256) (w / 2 ^ 8 % 256) (w / 2 ^ 16 % 256) (w / 2 ^ 24 % 256) ≡ w
unfolding get_u32
u32_again w h = omega arith

pub u16_again : (w : ℕ) → get_u16 (w % 2 ^ 16 % 256) (w % 2 ^ 16 / 2 ^ 8 % 256) ≡ w % 2 ^ 16
unfolding get_u16
u16_again w = omega arith

-- A plaintext datagram is read back, whatever key the receiver has.
decode-datagram_plain :
    (crc enc : ℕ) (payload : Bytes) (key : Option Bytes)
    → crc < 2 ^ 32
    → KnownEncoding enc
    → length payload ≤ 1220
    → decode_packet
        (datagram enc (length payload) (record { body = payload; enc_mode = 0; hdr_crc = crc }))
        key
      ≡ ok (record {
        topic_crc = crc;
        encoding = enc;
        enc_mode = 0;
        was_encrypted = false;
        payload = payload;
      })
unfolding decode_packet datagram put_u32 put_u16
decode-datagram_plain crc enc payload key h (inl e) fits =
    rw (u32_again crc h, u16_again, e) (ground arith)
decode-datagram_plain crc enc payload key h (inr e) fits =
    rw (u32_again crc h, u16_again, e) (ground arith)

module _ (topic payload : Bytes) (enc : ℕ) (topic_bytes : All IsByte topic) {sent : Bytes} where
  -- A successful encoding has one of the two encodings.
  pub encoding_known :
      (key : Option Bytes) → encode_packet topic payload enc key ≡ ok sent → KnownEncoding enc
  unfolding encode_packet
  encoding_known key h = ground arith

  -- Whatever was sent in the clear is decoded, with or without a key, to the CRC of the topic, the
  -- encoding and the payload that were given.
  pub decode_packet-encode_packet_plain :
      (key : Option Bytes)
      → encode_packet topic payload enc none ≡ ok sent
      → decode_packet sent key
        ≡ ok (record {
          topic_crc = topic_crc32 topic;
          encoding = enc;
          enc_mode = 0;
          was_encrypted = false;
          payload = payload;
        })
  decode_packet-encode_packet_plain key h =
      let crc : topic_crc32 topic < 2 ^ 32 = unfold topic_crc32 in crc32-lt topic topic_bytes in
      let known = encoding_known none h in
      let fits : length payload ≤ 1220 = unfold encode_packet encode_body in ground arith in
      let shape : datagram enc (length payload)
            (record { body = payload; enc_mode = 0; hdr_crc = topic_crc32 topic })
          ≡ sent =
        unfold encode_packet encode_body in ground arith in
      rw shape at (decode-datagram_plain (topic_crc32 topic) enc payload key crc known fits)
