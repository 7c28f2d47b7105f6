-- ===== src/Node/Interop/Framing.antt =====
-- The bytes of a datagram as the firmware and the bridge write and read them.
use esphome_mpubsub.Base.{
  All, Bytes, IsByte, List, [], arith, drop, length, refl, suc, zero, ℕ, ◌%◌, ◌*◌, ◌++◌, ◌+◌, ◌-◌,
  ◌^◌, ◌∷◌, ◌≡◌,
}
use esphome_mpubsub.Base.Bits.{bit_or_disjoint}
use esphome_mpubsub.Wire.Words.{get_u16, get_u32, put_u16, put_u32, words_to_bytes_le}
use esphome_mpubsub.Wire.Packet.{datagram, plaintext}
use esphome_mpubsub.Node.Format.{
  Encoding, encode_header, encoding_byte, four_bytes, two_bytes, unencrypted, xxtea,
}
use esphome_mpubsub.Node.Sending.{secret_body}

pub two_bytes_lem : (a b : ℕ) → IsByte a → two_bytes a b ≡ get_u16 a b
unfolding two_bytes get_u16
two_bytes_lem a b ha = bit_or_disjoint 8 a b ha

pub four_bytes_lem :
    (a b c d : ℕ) → IsByte a → IsByte b → IsByte c → four_bytes a b c d ≡ get_u32 a b c d
unfolding four_bytes get_u32
four_bytes_lem a b c d ha hb hc = rw (bit_or_disjoint 8 a b ha) (
    rw (bit_or_disjoint 16 (a + b * 2 ^ 8) c (omega arith))
      (bit_or_disjoint 24 (a + b * 2 ^ 8 + c * 2 ^ 16) d (omega arith)))

pub All-drop : (n : ℕ) (b : Bytes) → All IsByte b → All IsByte (drop n b)
All-drop zero b h = h
All-drop (suc n) [] h = h
All-drop (suc n) (x ∷ b) h = All-drop n b h.1

pub words_to_bytes_le-IsByte : (ws : List ℕ) → All IsByte (words_to_bytes_le ws)
unfolding words_to_bytes_le put_u32
words_to_bytes_le-IsByte [] = tt
words_to_bytes_le-IsByte (w ∷ ws) =
    (omega arith, (omega arith, (omega arith, (omega arith, words_to_bytes_le-IsByte ws))))

pub header_clear :
    (crc n : ℕ) (e : Encoding) (body : Bytes)
    → encode_header crc e (n % 2 ^ 16) unencrypted ++ body
      ≡ datagram (encoding_byte e) n (record { body = body; enc_mode = 0; hdr_crc = crc })
unfolding encode_header datagram put_u32 put_u16
header_clear crc n e body = refl

pub header_secret :
    (crc n : ℕ) (e : Encoding) (body : Bytes)
    → encode_header crc e (n % 2 ^ 16) xxtea ++ body
      ≡ datagram (encoding_byte e) n (record { body = body; enc_mode = 1; hdr_crc = 0 })
unfolding encode_header datagram put_u32 put_u16
header_secret crc n e body = refl

pub secret_body_lem :
    (clen crc : ℕ) (payload : Bytes) → secret_body clen crc payload ≡ plaintext clen crc payload
unfolding secret_body plaintext put_u32
secret_body_lem clen crc payload =
    let same : clen - 4 - length payload ≡ clen - (length payload + 4) = omega arith in rw same refl
