-- ===== src/Proto/Zigzag.antt =====
-- zigzag32, zigzag64 and their inverses of proto.go. A signed number is its two's complement pattern.
use esphome_mpubsub.Base.{ℕ, ◌+◌, ◌-◌, ◌*◌, ◌/◌, ◌%◌, ◌^◌, ◌<◌, ◌≡◌, ◌∙◌, arith}
use esphome_mpubsub.Base.{bit_and, bit_xor, ltb, if◌then◌else◌, Bool-cases, inl, inr}
use esphome_mpubsub.Base.Bits.{bit_xor-zero, bit_xor-ones, bit_and_mask}

-- `v >> (w-1)` on a signed number of `w` bits: all zeros or all ones.
abbrev pub sign_fill : ℕ → ℕ → ℕ
sign_fill w v = if ltb v (2 ^ (w - 1)) then 0 else 2 ^ w - 1

unfoldable pub zigzag32 : ℕ → ℕ
zigzag32 v = bit_xor (v * 2 % 2 ^ 32) (sign_fill 32 v)

unfoldable pub zigzag64 : ℕ → ℕ
zigzag64 v = bit_xor (v * 2 % 2 ^ 64) (sign_fill 64 v)

-- `(v >> 1) ^ -(v & 1)`
unfoldable pub unzigzag32 : ℕ → ℕ
unzigzag32 v = bit_xor (v / 2) ((2 ^ 32 - bit_and v 1) % 2 ^ 32)

unfoldable pub unzigzag64 : ℕ → ℕ
unzigzag64 v = bit_xor (v / 2) ((2 ^ 64 - bit_and v 1) % 2 ^ 64)

-- The numbers 0, -1, 1, -2, … get the codes 0, 1, 2, 3, …: 2 v where the sign bit is clear, and
-- 2 * 2^w - 1 - 2 v where it is set.
abbrev pub zigzag_code : ℕ → ℕ → ℕ
zigzag_code w v = if ltb v (2 ^ (w - 1)) then 2 * v else 2 * 2 ^ w - 1 - 2 * v

zigzag32-code : (v : ℕ) → v < 2 ^ 32 → zigzag32 v ≡ zigzag_code 32 v
unfolding zigzag32
zigzag32-code v h = elim (Bool-cases (ltb v (2 ^ 31))) [
  | inl pos ↦ rw pos (bit_xor-zero 32 (v * 2 % 2 ^ 32) (omega arith) ∙ ground arith)
  | inr neg ↦ rw neg (ground (arith, bit_xor-ones 32 (v * 2 % 2 ^ 32) (omega arith)))
]

zigzag64-code : (v : ℕ) → v < 2 ^ 64 → zigzag64 v ≡ zigzag_code 64 v
unfolding zigzag64
zigzag64-code v h = elim (Bool-cases (ltb v (2 ^ 63))) [
  | inl pos ↦ rw pos (bit_xor-zero 64 (v * 2 % 2 ^ 64) (omega arith) ∙ ground arith)
  | inr neg ↦ rw neg (ground (arith, bit_xor-ones 64 (v * 2 % 2 ^ 64) (omega arith)))
]

unzigzag32-even : (k : ℕ) → k < 2 ^ 31 → unzigzag32 (2 * k) ≡ k
unfolding unzigzag32
unzigzag32-even k h =
    let low : bit_and (2 * k) 1 ≡ 0 = bit_and_mask 1 (2 * k) ∙ omega arith in
    let half : 2 * k / 2 ≡ k = omega arith in rw (low, half) (bit_xor-zero 32 k (omega arith))

unzigzag32-odd : (k : ℕ) → k < 2 ^ 31 → unzigzag32 (2 * k + 1) + k ≡ 2 ^ 32 - 1
unfolding unzigzag32
unzigzag32-odd k h =
    let low : bit_and (2 * k + 1) 1 ≡ 1 = bit_and_mask 1 (2 * k + 1) ∙ omega arith in
    let half : (2 * k + 1) / 2 ≡ k = omega arith in rw (low, half) (bit_xor-ones 32 k (omega arith))

unzigzag64-even : (k : ℕ) → k < 2 ^ 63 → unzigzag64 (2 * k) ≡ k
unfolding unzigzag64
unzigzag64-even k h =
    let low : bit_and (2 * k) 1 ≡ 0 = bit_and_mask 1 (2 * k) ∙ omega arith in
    let half : 2 * k / 2 ≡ k = omega arith in rw (low, half) (bit_xor-zero 64 k (omega arith))

unzigzag64-odd : (k : ℕ) → k < 2 ^ 63 → unzigzag64 (2 * k + 1) + k ≡ 2 ^ 64 - 1
unfolding unzigzag64
unzigzag64-odd k h =
    let low : bit_and (2 * k + 1) 1 ≡ 1 = bit_and_mask 1 (2 * k + 1) ∙ omega arith in
    let half : (2 * k + 1) / 2 ≡ k = omega arith in rw (low, half) (bit_xor-ones 64 k (omega arith))

-- Every signed number of 32 bits comes back from its code, which is twice the number where that is
-- not negative and one less than twice its magnitude where it is.
pub unzigzag32-zigzag32 :
    (v : ℕ) → v < 2 ^ 32 → (zigzag32 v ≡ zigzag_code 32 v) × (unzigzag32 (zigzag32 v) ≡ v)
unzigzag32-zigzag32 v h = elim (Bool-cases (ltb v (2 ^ 31))) [
  | inl pos ↦ (zigzag32-code v h, rw (zigzag32-code v h, pos) (unzigzag32-even v (ground arith)))
  | inr neg ↦
      let k = 2 ^ 32 - 1 - v in
      let odd : 2 * 2 ^ 32 - 1 - 2 * v ≡ 2 * k + 1 = omega arith in
      (
        zigzag32-code v h,
        rw (zigzag32-code v h, neg, odd) (omega (arith, unzigzag32-odd k (ground arith))),
      )
]

-- Every signed number of 64 bits comes back from its code, which is twice the number where that is
-- not negative and one less than twice its magnitude where it is.
pub unzigzag64-zigzag64 :
    (v : ℕ) → v < 2 ^ 64 → (zigzag64 v ≡ zigzag_code 64 v) × (unzigzag64 (zigzag64 v) ≡ v)
unzigzag64-zigzag64 v h = elim (Bool-cases (ltb v (2 ^ 63))) [
  | inl pos ↦ (zigzag64-code v h, rw (zigzag64-code v h, pos) (unzigzag64-even v (ground arith)))
  | inr neg ↦
      let k = 2 ^ 64 - 1 - v in
      let odd : 2 * 2 ^ 64 - 1 - 2 * v ≡ 2 * k + 1 = omega arith in
      (
        zigzag64-code v h,
        rw (zigzag64-code v h, neg, odd) (omega (arith, unzigzag64-odd k (ground arith))),
      )
]

pub zigzag32-lt : (v : ℕ) → v < 2 ^ 32 → zigzag32 v < 2 ^ 32
zigzag32-lt v h = rw (zigzag32-code v h) (ground arith)

pub zigzag64-lt : (v : ℕ) → v < 2 ^ 64 → zigzag64 v < 2 ^ 64
zigzag64-lt v h = rw (zigzag64-code v h) (ground arith)
