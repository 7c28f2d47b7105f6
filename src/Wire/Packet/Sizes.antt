-- ===== src/Wire/Packet/Sizes.antt =====
-- Lengths: of the ciphertext, of the plaintext under it and of a datagram.
use esphome_mpubsub.Base.{ℕ, zero, suc, ◌+◌, ◌-◌, ◌*◌, ◌/◌, ◌≤◌, ◌≡◌, arith, ltb}
use esphome_mpubsub.Base.{Bytes, length, replicate, All, IsByte, if◌then◌else◌}
use esphome_mpubsub.Base.{length-append, length-replicate, All-append}
use esphome_mpubsub.Base.Bits.{bit_and_mask}
use esphome_mpubsub.Wire.Words.{put_u32, put_u16}
use esphome_mpubsub.Base.{sym, ap, ◌∙◌}
use esphome_mpubsub.Wire.Words.{bytes_to_words_le, words_to_bytes_le, length-bytes_to_words_le}
use esphome_mpubsub.Wire.Words.{length-words_to_bytes_le}
use esphome_mpubsub.Wire.Xxtea.{xxtea_encrypt}
use esphome_mpubsub.Wire.Xxtea.Inverse.{length-xxtea_encrypt}
use esphome_mpubsub.Wire.Packet.{xxtea_ciphertext_len, plaintext, datagram, Body}

-- The ciphertext of `n` bytes: 8 bytes at least, else the 4 + n bytes rounded up to a word.
pub xxtea_ciphertext_len_lem :
    (n : ℕ) → xxtea_ciphertext_len n ≡ 4 * (if ltb n 4 then 2 else (n + 7) / 4)
unfolding xxtea_ciphertext_len
xxtea_ciphertext_len_lem n = ground (arith, bit_and_mask 2 (n + 4 + 3))

pub xxtea_ciphertext_len_bounds :
    (n : ℕ)
    → (n + 4 ≤ xxtea_ciphertext_len n)
      × (8 ≤ xxtea_ciphertext_len n)
      × (xxtea_ciphertext_len n ≤ n + 8)
xxtea_ciphertext_len_bounds n = ground (arith, xxtea_ciphertext_len_lem n)

-- 1216 bytes are the most that fit a datagram when encrypted.
pub xxtea_ciphertext_len_fits : (n : ℕ) → ltb 1232 (12 + xxtea_ciphertext_len n) ≡ ltb 1216 n
xxtea_ciphertext_len_fits n = ground (arith, xxtea_ciphertext_len_lem n)

pub length-plaintext :
    (clen crc : ℕ) (payload : Bytes)
    → length payload + 4 ≤ clen
    → length (plaintext clen crc payload) ≡ clen
unfolding plaintext put_u32
length-plaintext clen crc payload h = omega (
  arith,
  length-append payload (replicate (clen - (length payload + 4)) 0),
  length-replicate {A = ℕ} (clen - (length payload + 4)) 0,
)

put_u32-IsByte : (w : ℕ) → All IsByte (put_u32 w)
unfolding put_u32
put_u32-IsByte w = omega arith

zeros-IsByte : (n : ℕ) → All IsByte (replicate n 0)
zeros-IsByte zero = tt
zeros-IsByte (suc n) = (omega arith, zeros-IsByte n)

pub plaintext-IsByte :
    (clen crc : ℕ) (payload : Bytes) → All IsByte payload → All IsByte (plaintext clen crc payload)
unfolding plaintext
plaintext-IsByte clen crc payload h =
    All-append IsByte (put_u32 crc) _ (put_u32-IsByte crc)
      (All-append IsByte payload _ h (zeros-IsByte (clen - (length payload + 4))))

pub length-datagram : (enc n : ℕ) (b : Body) → length (datagram enc n b) ≡ 12 + length b.body
unfolding datagram put_u32 put_u16
length-datagram enc n b = omega arith

abbrev quarter : ℕ → ℕ
quarter n = if ltb n 4 then 2 else (n + 7) / 4

quarter-two : (n : ℕ) → 2 ≤ quarter n
quarter-two n = ground arith

-- The ciphertext is as long as its plaintext.
pub length-ciphertext :
    (crc : ℕ) (payload key : Bytes)
    → let clen = xxtea_ciphertext_len (length payload) in
      length (
        words_to_bytes_le
          (xxtea_encrypt (bytes_to_words_le (plaintext clen crc payload)) (bytes_to_words_le key)))
      ≡ clen
length-ciphertext crc payload key =
    let n = length payload in
    let clen = xxtea_ciphertext_len n in
    let plain = length-plaintext clen crc payload ((xxtea_ciphertext_len_bounds n).0) in
    let words =
      length-bytes_to_words_le (quarter n) (plaintext clen crc payload)
        (plain ∙ xxtea_ciphertext_len_lem n) in
    length-words_to_bytes_le _
    ∙ ap (λ (t : ℕ). 4 * t)
        (length-xxtea_encrypt _ (bytes_to_words_le key) (rw words (quarter-two n)) ∙ words)
    ∙ sym (xxtea_ciphertext_len_lem n)
