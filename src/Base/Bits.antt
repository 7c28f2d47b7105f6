-- ===== src/Base/Bits.antt =====
-- `&`, `|` and `^` of words as arithmetic, at every width.
use Prim.Native.Nat.{ℕ, zero, suc, ◌+◌, ◌-◌, ◌*◌, ◌/◌, ◌%◌, ◌^◌, ◌≤◌, ◌<◌, min, max}
use Prim.Native.Nat.{bit_and, bit_or, bit_xor, digits, bitwise, differ}
use Prim.Native.Nat.{bit_and-bitwise, bit_or-bitwise, bit_xor-bitwise}
use mathlib.Core.Path.{◌≡◌, refl, sym, ap, ◌∙◌}
use mathlib.Core.Bool.{Bool, true, ◌&&◌}
use esphome_mpubsub.Base.Tests.{◌==◌, ==_iff}
use native.Mathlib.Decide.{ℕ_discrete}
use native.Mathlib.Nat.{pow-suc, one-le-pow}
use native.Mathlib.Omega.{arith}

-- The digit recursion, `z` being what it gives once the first number has run out.
module _ (z : ℕ → ℕ) (f : ℕ → ℕ → ℕ) where
  run_out : (fuel b : ℕ) → digits z f fuel 0 b ≡ z b
  run_out zero b = refl
  run_out (suc fuel) b = refl

  -- The fuel `a` is no better than any other that reaches to the last digit.
  enough_fuel :
      (a b short long : ℕ) → a ≤ short → short ≤ long → digits z f long a b ≡ digits z f short a b
  enough_fuel zero b short long below longer = run_out long b ∙ sym (run_out short b)
  enough_fuel (suc a) b zero long below longer = absurd (omega arith)
  enough_fuel (suc a) b (suc short) zero below longer = absurd (omega arith)
  enough_fuel (suc a) b (suc short) (suc long) below longer =
      ap (λ (t : ℕ). t * 2 + f (suc a % 2) (b % 2))
        (enough_fuel (suc a / 2) (b / 2) short long (omega arith) (omega arith))

  abbrev halves : ℕ → ℕ → ℕ
  halves x y = bitwise z f (x / 2) (y / 2)

  lowest_digit : (x y : ℕ) → bitwise z f (suc x) y ≡ f (suc x % 2) (y % 2) + halves (suc x) y * 2
  lowest_digit x y =
      let rest = enough_fuel (suc x / 2) (y / 2) (suc x / 2) x (omega arith) (omega arith) in
      omega (arith, rest)

pub bit_or_step : (x y : ℕ) → bit_or x y ≡ max (x % 2) (y % 2) + bit_or (x / 2) (y / 2) * 2
bit_or_step zero y = simp bit_or-bitwise (omega arith)
bit_or_step (suc x) y = simp bit_or-bitwise (lowest_digit (λ d. d) max x y)

pub bit_and_step : (x y : ℕ) → bit_and x y ≡ min (x % 2) (y % 2) + bit_and (x / 2) (y / 2) * 2
bit_and_step zero y = simp bit_and-bitwise (omega arith)
bit_and_step (suc x) y = simp bit_and-bitwise (lowest_digit (λ d. 0) min x y)

differ_digits : (a b : ℕ) → a < 2 → b < 2 → differ a b + 2 * min a b ≡ a + b
differ_digits zero b ha hb = omega arith
differ_digits (suc zero) zero ha hb = refl
differ_digits (suc zero) (suc zero) ha hb = refl
differ_digits (suc zero) (suc (suc b)) ha hb = absurd (omega arith)
differ_digits (suc (suc a)) b ha hb = absurd (omega arith)

bit_xor_step_raw : (x y : ℕ) → bit_xor x y ≡ differ (x % 2) (y % 2) + bit_xor (x / 2) (y / 2) * 2
bit_xor_step_raw zero y = simp bit_xor-bitwise (omega arith)
bit_xor_step_raw (suc x) y = simp bit_xor-bitwise (lowest_digit (λ d. d) differ x y)

-- `^` adds the digits without the carry.
pub bit_xor_step : (a b : ℕ) → bit_xor a b ≡ bit_xor (a / 2) (b / 2) * 2 + (a % 2 + b % 2) % 2
bit_xor_step a b =
    omega (arith, bit_xor_step_raw a b, differ_digits (a % 2) (b % 2) (omega arith) (omega arith))

halve : (k a : ℕ) → a < 2 ^ suc k → a / 2 < 2 ^ k
halve k a h = omega (arith, pow-suc 2 k)

below_one : (a : ℕ) → a < 1 → a ≡ 0
below_one a h = omega arith

-- Both operands in `k` bits: so is the result.
pub bit_xor-lt : (k a b : ℕ) → a < 2 ^ k → b < 2 ^ k → bit_xor a b < 2 ^ k
bit_xor-lt zero a b ha hb = rw (below_one a ha, below_one b hb) (omega arith)
bit_xor-lt (suc k) a b ha hb = omega (
  arith,
  bit_xor_step a b,
  pow-suc 2 k,
  bit_xor-lt k (a / 2) (b / 2) (halve k a ha) (halve k b hb),
)

-- `x ^ 0` is `x`.
pub bit_xor-zero : (k a : ℕ) → a < 2 ^ k → bit_xor a 0 ≡ a
bit_xor-zero zero a h = rw (below_one a h) refl
bit_xor-zero (suc k) a h = omega (arith, bit_xor_step a 0, bit_xor-zero k (a / 2) (halve k a h))

-- `x ^ (2^k - 1)` is the complement of `x` in `k` bits.
pub bit_xor-ones : (k a : ℕ) → a < 2 ^ k → bit_xor a (2 ^ k - 1) + a ≡ 2 ^ k - 1
bit_xor-ones zero a h = rw (below_one a h) refl
bit_xor-ones (suc k) a h = ground (
  arith,
  bit_xor_step a (2 ^ suc k - 1),
  pow-suc 2 k,
  one-le-pow k 2,
  bit_xor-ones k (a / 2) (halve k a h),
)

bit_or-zero : (k a : ℕ) → a < 2 ^ k → bit_or a 0 ≡ a
bit_or-zero zero a h = rw (below_one a h) refl
bit_or-zero (suc k) a h = omega (arith, bit_or_step a 0, bit_or-zero k (a / 2) (halve k a h))

lt-pow : (a : ℕ) → a < 2 ^ a
lt-pow zero = omega arith
lt-pow (suc a) = omega (arith, pow-suc 2 a, lt-pow a)

zero-bit_or : (a : ℕ) → bit_or 0 a ≡ a
zero-bit_or a = bit_or-bitwise 0 a

twice_pow : (q k : ℕ) → q * 2 ^ suc k ≡ 2 * (q * 2 ^ k)
twice_pow q k = omega (arith, ap (λ (t : ℕ). q * t) (pow-suc 2 k))

-- `low | high << k` is a sum where `low` fits `k` bits.
pub bit_or_disjoint :
    (k low high : ℕ) → low < 2 ^ k → bit_or low (high * 2 ^ k) ≡ low + high * 2 ^ k
bit_or_disjoint zero low high h = rw (below_one low h) (zero-bit_or (high * 1) ∙ omega arith)
bit_or_disjoint (suc k) low high h = ground (
  arith,
  bit_or_step low (high * 2 ^ suc k),
  twice_pow high k,
  bit_or_disjoint k (low / 2) high (halve k low h),
)

-- `high << k | low`, the other way round.
pub bit_or_fields : (k high low : ℕ) → low < 2 ^ k → bit_or (high * 2 ^ k) low ≡ high * 2 ^ k + low
bit_or_fields zero high low h =
    rw (below_one low h) (bit_or-zero (high * 1) (high * 1) (lt-pow (high * 1)) ∙ omega arith)
bit_or_fields (suc k) high low h = ground (
  arith,
  bit_or_step (high * 2 ^ suc k) low,
  twice_pow high k,
  bit_or_fields k high (low / 2) (halve k low h),
)

bit_and-zero : (k a : ℕ) → a < 2 ^ k → bit_and a 0 ≡ 0
bit_and-zero zero a h = rw (below_one a h) refl
bit_and-zero (suc k) a h = omega (arith, bit_and_step a 0, bit_and-zero k (a / 2) (halve k a h))

bit_and_fields : (k q r : ℕ) → r < 2 ^ k → bit_and (q * 2 ^ k + r) (2 ^ k - 1) ≡ r
bit_and_fields zero q r h = bit_and-zero _ _ (lt-pow _) ∙ omega arith
bit_and_fields (suc k) q r h = ground (
  arith,
  bit_and_step (q * 2 ^ suc k + r) (2 ^ suc k - 1),
  twice_pow q k,
  pow-suc 2 k,
  one-le-pow k 2,
  bit_and_fields k q (r / 2) (halve k r h),
)

-- A mask of `k` ones is the remainder by `2 ^ k`.
pub bit_and_mask : (k a : ℕ) → bit_and a (2 ^ k - 1) ≡ a % 2 ^ k
bit_and_mask k a = ground (arith, one-le-pow k 2, bit_and_fields k (a / 2 ^ k) (a % 2 ^ k))

-- Whether two functions agree at the `count` numbers from `start` on.
agree_from : (ℕ → ℕ) → (ℕ → ℕ) → (count start : ℕ) → Bool
agree_from f g zero start = true
agree_from f g (suc count) start = f start == g start && agree_from f g count (suc start)

agree_from→eq :
    (f g : ℕ → ℕ) (count start x : ℕ)
    → agree_from f g count start ≡ true
    → start ≤ x
    → x < start + count
    → f x ≡ g x
unfolding agree_from
agree_from→eq f g zero start x table low high = absurd (omega arith)
agree_from→eq f g (suc count) start x table low high = elim (ℕ_discrete start x) [
  | yes here ↦ ap f (sym here) ∙ (==_iff (f start) (g start)).0 (ground arith) ∙ ap g here
  | no later ↦ agree_from→eq f g count (suc start) x (ground arith) (omega arith) (omega arith)
]

-- `b | 0x80` sets the top bit of a byte.
pub bit_or_top : (b : ℕ) → b < 256 → bit_or b 0x80 ≡ b % 128 + 128
unfolding agree_from
bit_or_top b h =
    agree_from→eq (λ n. bit_or n 0x80) (λ n. n % 128 + 128) 256 0 b refl (omega arith) (omega arith)

pub bit_or-lt : (k a b : ℕ) → a < 2 ^ k → b < 2 ^ k → bit_or a b < 2 ^ k
bit_or-lt zero a b ha hb = rw (below_one a ha, below_one b hb) (omega arith)
bit_or-lt (suc k) a b ha hb =
    omega (
      arith,
      bit_or_step a b,
      pow-suc 2 k,
      bit_or-lt k (a / 2) (b / 2) (halve k a ha) (halve k b hb),
    )
