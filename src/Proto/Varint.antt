-- ===== src/Proto/Varint.antt =====
-- appendVarint, appendTag and readVarint of proto.go.
pub mod Groups
pub mod Reading
use mathlib.Core.Logic.{dite}
use mathlib.Core.WellFounded.{Acc}
use native.Mathlib.Decide.{dec_lt}
use esphome_mpubsub.Base.{ℕ, suc, ◌+◌, ◌*◌, ◌/◌, ◌%◌, ◌^◌, ◌<◌, ◌≡◌, refl, arith, bit_and, bit_or}
use esphome_mpubsub.Base.{[], ◌∷◌, ◌++◌, Bytes, Option, none, some, ltb, leb, if◌then◌else◌}
use esphome_mpubsub.Base.Order.{lt_wf}

pub shifted-lt : (v : ℕ) → ¬ (v < 0x80) → v / 2 ^ 7 < v
shifted-lt v h = omega arith

-- The loop of appendVarint runs while `v >= 0x80`.
varint_loop : Bytes → (v : ℕ) → Acc ◌<◌ v → Bytes
varint_loop buf v (Acc.intro _ smaller) =
    dite (dec_lt v 0x80) (λ _. buf ++ (v % 256) ∷ [])
      (λ h.
        varint_loop (buf ++ bit_or (v % 256) 0x80 ∷ []) (v / 2 ^ 7) (smaller _ (shifted-lt v h)))

unfoldable pub append_varint : Bytes → ℕ → Bytes
unfolding varint_loop lt_wf dec_lt
append_varint buf v = varint_loop buf v (lt_wf.apply v)

-- `uint64(field)<<3|uint64(wt)`
unfoldable pub append_tag : Bytes → ℕ → ℕ → Bytes
append_tag buf field wt = append_varint buf (bit_or (field * 2 ^ 3 % 2 ^ 64) wt)

-- `val |= uint64(b&0x7F) << shift`
abbrev pub add_bits : ℕ → ℕ → ℕ → ℕ
add_bits val b shift = bit_or val (bit_and b 0x7F * 2 ^ shift % 2 ^ 64)

-- The list is what `range data` has still to visit, from index `i` on.
read_loop : Bytes → ℕ → ℕ → ℕ → Option (ℕ × ℕ)
read_loop [] i shift val = none
read_loop (b ∷ rest) i shift val =
    let val' = add_bits val b shift in
    let more = read_loop rest (i + 1) (shift + 7) val' in
    if leb 10 i then none else if ltb b 0x80 then some (val', i + 1) else more

-- The value and the number of bytes that it took; `none` is ok=false.
unfoldable pub read_varint : Bytes → Option (ℕ × ℕ)
unfolding read_loop
read_varint bytes = read_loop bytes 0 0 0

runs :
    (append_varint [] 300 ≡ 0xAC ∷ 0x02 ∷ [])
    × (read_varint (0xAC ∷ 0x02 ∷ 9 ∷ []) ≡ some (300, 2))
    × (read_varint (0x80 ∷ []) ≡ none)
unfolding append_varint read_varint
runs = (refl, refl, refl)
