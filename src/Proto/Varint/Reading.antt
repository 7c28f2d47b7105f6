-- ===== src/Proto/Varint/Reading.antt =====
-- readVarint on what appendVarint wrote, and on any bytes.
use native.Mathlib.Nat.{div-add-mod}
use native.Mathlib.Numerals.{towards_suc}
use esphome_mpubsub.Base.{ℕ, zero, suc, ◌+◌, ◌*◌, ◌/◌, ◌%◌, ◌^◌, ◌≤◌, ◌<◌, ◌≡◌, ap, ◌∙◌, arith}
use esphome_mpubsub.Base.{bit_and, [], ◌∷◌, ◌++◌, Bytes, length, ltb}
use esphome_mpubsub.Base.{some, Bool-cases, inl, inr, lt→ltb}
use esphome_mpubsub.Base.Bits.{bit_and_mask, bit_or_disjoint, bit_or-lt}
use esphome_mpubsub.Proto.Varint.{read_loop, read_varint, append_varint, add_bits}
use esphome_mpubsub.Proto.Varint.Groups.{groups, append_varint-groups}

pow_seven : (s : ℕ) → 2 ^ (s + 7) ≡ 128 * 2 ^ s
pow_seven s = simp towards_suc (omega arith)

-- A group that fits above the bits read so far is added.
add_bits_fit :
    (val b s : ℕ)
    → val < 2 ^ s
    → val + b % 128 * 2 ^ s < 2 ^ 64
    → add_bits val b s ≡ val + b % 128 * 2 ^ s
add_bits_fit val b s small fits = rw (bit_and_mask 7 b) (
    let whole : b % 128 * 2 ^ s % 2 ^ 64 ≡ b % 128 * 2 ^ s = omega arith in
    rw whole (bit_or_disjoint s val (b % 128) small))

-- One round at a byte below 128, and one at a byte from 128 on.
read_loop_last :
    (b : ℕ) (rest : Bytes) (i s val : ℕ)
    → b < 128
    → i < 10
    → val < 2 ^ s
    → val + b * 2 ^ s < 2 ^ 64
    → read_loop (b ∷ rest) i s val ≡ some (val + b * 2 ^ s, i + 1)
unfolding read_loop
read_loop_last b rest i s val hb hi small fits =
    let same : b % 128 ≡ b = omega arith in
    let sum : add_bits val b s ≡ val + b * 2 ^ s =
      rw same at (add_bits_fit val b s small (rw same fits)) in
    rw (lt→ltb b 128 hb) (ground (arith, sum))

read_loop_more :
    (g : ℕ) (rest : Bytes) (i s val : ℕ)
    → g < 128
    → i < 10
    → val < 2 ^ s
    → val + g * 2 ^ s < 2 ^ 64
    → read_loop ((g + 128) ∷ rest) i s val ≡ read_loop rest (i + 1) (s + 7) (val + g * 2 ^ s)
unfolding read_loop
read_loop_more g rest i s val hg hi small fits =
    let same : (g + 128) % 128 ≡ g = omega arith in
    let sum : add_bits val (g + 128) s ≡ val + g * 2 ^ s =
      rw same at (add_bits_fit val (g + 128) s small (rw same fits)) in
    rw sum (ground arith)

split_low : (v s : ℕ) → v * 2 ^ s ≡ v % 128 * 2 ^ s + v / 128 * 2 ^ (s + 7)
split_low v s = omega (
  arith,
  ap (λ (t : ℕ). t * 2 ^ s) (div-add-mod v 128),
  ap (λ (t : ℕ). v / 128 * t) (pow_seven s),
)

room : (g s val : ℕ) → g < 128 → val < 2 ^ s → val + g * 2 ^ s < 2 ^ (s + 7)
room g s val hg small = rw (pow_seven s) (grind arith)

-- `v` is what is still to come, above the `s` bits that are read.
read_loop-groups :
    (k v i s val : ℕ) (rest : Bytes)
    → v < 128 ^ suc k
    → i + k < 10
    → val < 2 ^ s
    → val + v * 2 ^ s < 2 ^ 64
    → read_loop (groups k v ++ rest) i s val ≡ some (val + v * 2 ^ s, i + length (groups k v))
unfolding groups
read_loop-groups zero v i s val rest hv hi small fits =
    read_loop_last v rest i s val (omega arith) (omega arith) small fits
read_loop-groups (suc k) v i s val rest hv hi small fits = elim (Bool-cases (ltb v 128)) [
  | inl last ↦ rw last (read_loop_last v rest i s val (ground arith) (omega arith) small fits)
  | inr more ↦
      let fits' : val + v % 128 * 2 ^ s < 2 ^ 64 = omega (arith, split_low v s) in
      let small' : val + v % 128 * 2 ^ s < 2 ^ (s + 7) = room (v % 128) s val (omega arith) small in
      rw more (
        read_loop_more (v % 128) (groups k (v / 128) ++ rest) i s val (omega arith) (omega arith)
          small fits'
        ∙ read_loop-groups k (v / 128) (i + 1) (s + 7) (val + v % 128 * 2 ^ s) rest (omega arith)
            (omega arith) small' (omega (arith, split_low v s))
        ∙ ground (arith, split_low v s))
]

pub read_varint-groups :
    (v : ℕ) (rest : Bytes)
    → v < 2 ^ 64
    → read_varint (groups 9 v ++ rest) ≡ some (v, length (groups 9 v))
unfolding read_varint
read_varint-groups v rest h =
    read_loop-groups 9 v 0 0 0 rest (omega arith) (omega arith) (omega arith) (omega arith)
    ∙ ground arith

-- readVarint gives back every uint64 that appendVarint wrote, with the number of bytes written,
-- whatever follows.
pub read_varint-append_varint :
    (v : ℕ) (rest : Bytes)
    → v < 2 ^ 64
    → read_varint (append_varint [] v ++ rest) ≡ some (v, length (append_varint [] v))
read_varint-append_varint v rest h = rw (append_varint-groups [] v h) (read_varint-groups v rest h)

read_loop_bounds :
    (bytes : Bytes) (i s val v n : ℕ)
    → val < 2 ^ 64
    → read_loop bytes i s val ≡ some (v, n)
    → (v < 2 ^ 64) × (i < n) × (n ≤ i + length bytes) × (n ≤ 10)
unfolding read_loop
read_loop_bounds [] i s val v n small h = cc
read_loop_bounds (b ∷ rest) i s val v n small h = ground (
  arith,
  bit_or-lt 64 val (bit_and b 0x7F * 2 ^ s % 2 ^ 64) small (omega arith),
  read_loop_bounds rest (i + 1) (s + 7) (add_bits val b s) v n,
)

-- On any bytes, what readVarint returns is a uint64, and it took 1 to 10 of the bytes at hand.
pub read_varint_bounds :
    (bytes : Bytes) (v n : ℕ)
    → read_varint bytes ≡ some (v, n)
    → (v < 2 ^ 64) × (1 ≤ n) × (n ≤ length bytes) × (n ≤ 10)
unfolding read_varint
read_varint_bounds bytes v n h = ground (arith, read_loop_bounds bytes 0 0 0 v n (omega arith) h)

-- A longer form than appendVarint's is read all the same: any number below 128 with its byte
-- marked and a zero byte behind it.
pub read_varint_overlong :
    (v : ℕ) (rest : Bytes) → v < 128 → read_varint ((v + 128) ∷ 0 ∷ rest) ≡ some (v, 2)
unfolding read_varint
read_varint_overlong v rest h =
    read_loop_more v (0 ∷ rest) 0 0 0 h (omega arith) (omega arith) (omega arith)
    ∙ read_loop_last 0 rest 1 7 (0 + v * 1) (omega arith) (omega arith) (omega arith) (omega arith)
    ∙ ground arith
