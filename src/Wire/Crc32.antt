-- ===== src/Wire/Crc32.antt =====
-- `crc32.ChecksumIEEE` of Go's standard library, bit by bit.
use mathlib.Core.List.{foldl}
use esphome_mpubsub.Base.{ℕ, zero, suc, ◌/◌, ◌%◌, ◌^◌, ◌<◌, ◌≡◌, refl, arith, bit_xor, ◌==◌}
use esphome_mpubsub.Base.{[], ◌∷◌, Bytes, IsByte, All, lit, if◌then◌else◌}
use esphome_mpubsub.Base.Bits.{bit_xor-lt}

unfoldable pub crc_bit : ℕ → ℕ
crc_bit c = bit_xor (c / 2) (if c % 2 == 1 then 0xEDB88320 else 0)

unfoldable pub crc_bits : ℕ → ℕ → ℕ
crc_bits zero c = c
crc_bits (suc n) c = crc_bits n (crc_bit c)

unfoldable pub crc_byte : ℕ → ℕ → ℕ
unfolding crc_bit crc_bits
crc_byte c b = crc_bits 8 (bit_xor c b)

unfoldable pub crc32 : Bytes → ℕ
unfolding crc_byte
crc32 bytes = bit_xor (foldl crc_byte 0xFFFFFFFF bytes) 0xFFFFFFFF

crc_bit-lt : (c : ℕ) → c < 2 ^ 32 → crc_bit c < 2 ^ 32
unfolding crc_bit
crc_bit-lt c h = bit_xor-lt 32 _ _ (omega arith) (ground arith)

crc_bits-lt : (n c : ℕ) → c < 2 ^ 32 → crc_bits n c < 2 ^ 32
unfolding crc_bits
crc_bits-lt zero c h = h
crc_bits-lt (suc n) c h = crc_bits-lt n (crc_bit c) (crc_bit-lt c h)

crc_bytes-lt :
    (bytes : Bytes) (c : ℕ) → c < 2 ^ 32 → All IsByte bytes → foldl crc_byte c bytes < 2 ^ 32
crc_bytes-lt [] c h k = h
crc_bytes-lt (b ∷ bs) c h k =
    crc_bytes-lt bs (crc_byte c b)
      (unfold crc_byte in crc_bits-lt 8 _ (bit_xor-lt 32 c b h (omega arith))) k.1

pub crc32-lt : (bytes : Bytes) → All IsByte bytes → crc32 bytes < 2 ^ 32
unfolding crc32
crc32-lt bytes h = bit_xor-lt 32 _ _ (crc_bytes-lt bytes _ (omega arith) h) (omega arith)

-- The check value of the CRC catalogue.
check_value : crc32 (lit "123456789") ≡ 0xCBF43926
unfolding crc32
check_value = refl
