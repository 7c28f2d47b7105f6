-- ===== src/Node/Topic.antt =====
-- The group and the checksum of a topic in components/mpubsub/topic_hash.cpp. SHA-256 is a parameter.
use mathlib.Core.List.{foldl}
use esphome_mpubsub.Base.{
  ℕ, zero, suc, ◌-◌, ◌*◌, ◌/◌, ◌%◌, ◌^◌, ◌≡◌, refl, arith, bit_and, bit_or, bit_xor,
}
use esphome_mpubsub.Base.{[], ◌∷◌, Bytes, take, ◌==◌, ==_iff, Bool-cases, inl, inr, ap, ◌∙◌}
use esphome_mpubsub.Base.Bits.{bit_and_mask}
use esphome_mpubsub.Wire.Crc32.{crc_bit, crc_byte, crc_bits, crc32}
use esphome_mpubsub.Wire.Packet
use esphome_mpubsub.Wire.Address

unfoldable pub topic_to_group : (Bytes → Bytes) → Bytes → ℕ → Bytes
topic_to_group sha256 topic scope =
    0xFF ∷ bit_or (0x1 * 2 ^ 4) (bit_and scope 0x0F) ∷ take 14 (sha256 topic)

-- `mask = -(crc & 1)` on uint32, and `(crc >> 1) ^ (0xEDB88320 & mask)`.
unfoldable pub masked_bit : ℕ → ℕ
masked_bit crc =
    let mask = (2 ^ 32 - bit_and crc 1) % 2 ^ 32 in bit_xor (crc / 2) (bit_and 0xEDB88320 mask)

unfoldable pub masked_bits : ℕ → ℕ → ℕ
masked_bits zero crc = crc
masked_bits (suc n) crc = masked_bits n (masked_bit crc)

-- `~crc` on uint32.
unfoldable pub topic_crc32 : Bytes → ℕ
topic_crc32 topic =
    bit_xor (foldl (λ (crc : ℕ) (c : ℕ). masked_bits 8 (bit_xor crc c)) 0xFFFFFFFF topic) 0xFFFFFFFF

masked_bit_lem : (c : ℕ) → masked_bit c ≡ crc_bit c
unfolding masked_bit crc_bit
masked_bit_lem c = elim (Bool-cases (c % 2 == 1)) [
  | inl odd ↦
      let one : bit_and c 1 ≡ 1 = bit_and_mask 1 c ∙ omega (arith, (==_iff (c % 2) 1).0 odd) in
      rw (one, odd) refl
  | inr even ↦
      let zero_bit : bit_and c 1 ≡ 0 = bit_and_mask 1 c ∙ ground arith in rw (zero_bit, even) refl
]

masked_bits_lem : (n c : ℕ) → masked_bits n c ≡ crc_bits n c
unfolding masked_bits crc_bits
masked_bits_lem zero c = refl
masked_bits_lem (suc n) c = masked_bits_lem n (masked_bit c) ∙ ap (crc_bits n) (masked_bit_lem c)

fold_lem :
    (bytes : Bytes) (c : ℕ)
    → foldl (λ (crc : ℕ) (b : ℕ). masked_bits 8 (bit_xor crc b)) c bytes ≡ foldl crc_byte c bytes
unfolding crc_byte
fold_lem [] c = refl
fold_lem (b ∷ bs) c =
    fold_lem bs (masked_bits 8 (bit_xor c b))
    ∙ ap (λ (x : ℕ). foldl crc_byte x bs) (masked_bits_lem 8 (bit_xor c b))

-- The checksum is the one that the bridge computes.
pub topic_crc32_lem : (topic : Bytes) → topic_crc32 topic ≡ Packet.topic_crc32 topic
unfolding topic_crc32 crc32 Packet.topic_crc32
topic_crc32_lem topic = ap (λ (x : ℕ). bit_xor x 0xFFFFFFFF) (fold_lem topic 0xFFFFFFFF)

-- So is the group.
pub topic_to_group_lem :
    (sha256 : Bytes → Bytes) (topic : Bytes) (scope : ℕ)
    → topic_to_group sha256 topic scope ≡ Address.topic_to_group sha256 topic scope
unfolding topic_to_group Address.topic_to_group
topic_to_group_lem sha256 topic scope = refl
