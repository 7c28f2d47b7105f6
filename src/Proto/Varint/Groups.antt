-- ===== src/Proto/Varint/Groups.antt =====
-- What appendVarint writes: groups of seven bits, lowest first, each but the last marked by 128.
use mathlib.Core.WellFounded.{Acc}
use mathlib.Core.Logic.{dif_pos, dif_neg}
use esphome_mpubsub.Base.Order.{lt_wf}
use native.Mathlib.Bridge.{le_prop}
use native.Mathlib.Nat.{mod-eq_of_lt}
use native.Mathlib.Decide.{dec_lt}
use esphome_mpubsub.Base.{ℕ, zero, suc, ◌+◌, ◌/◌, ◌%◌, ◌^◌, ◌≤◌, ◌<◌, ◌≡◌, refl, ◌∙◌, arith}
use esphome_mpubsub.Base.{bit_or, [], ◌∷◌, ◌++◌, Bytes, length, All, IsByte, ltb, if◌then◌else◌}
use esphome_mpubsub.Base.{lt→ltb, le→ltb_false, append_assoc}
use esphome_mpubsub.Base.Bits.{bit_or_top}
use esphome_mpubsub.Proto.Varint.{varint_loop, append_varint, shifted-lt}

unfoldable pub groups : ℕ → ℕ → Bytes
groups zero v = v ∷ []
groups (suc k) v =
    let rest = groups k (v / 128) in if ltb v 128 then v ∷ [] else ((v % 128 + 128) ∷ rest)

-- `byte(v)|0x80` replaces the eighth bit.
marked : (v : ℕ) → bit_or (v % 256) 0x80 ≡ v % 128 + 128
marked v = rw (bit_or_top (v % 256) (omega arith)) (omega arith)

varint_loop-groups :
    (k : ℕ) (buf : Bytes) (v : ℕ) (w : Acc ◌<◌ v)
    → v < 128 ^ suc k
    → varint_loop buf v w ≡ buf ++ groups k v
unfolding varint_loop groups
varint_loop-groups zero buf v (Acc.intro _ smaller) h =
    rw (dif_pos _ le_prop (let small : v < 128 = omega arith in small))
      (rw (mod-eq_of_lt {n = v} {m = 256} (omega arith)) refl)
varint_loop-groups (suc k) buf v (Acc.intro _ smaller) h = elim (dec_lt v 128) [
  | yes small ↦
      rw (dif_pos _ le_prop small, lt→ltb v 128 small, mod-eq_of_lt {n = v} {m = 256} (omega arith))
        refl
  | no large ↦
      rw (dif_neg _ large, le→ltb_false v 128 (omega arith), marked v)
        (varint_loop-groups k (buf ++ (v % 128 + 128) ∷ []) (v / 128)
            (smaller (v / 2 ^ 7) (shifted-lt v large)) (omega arith)
          ∙ append_assoc buf ((v % 128 + 128) ∷ []) (groups k (v / 128)))
]

-- On every uint64 appendVarint keeps the buffer and appends the groups.
pub append_varint-groups :
    (buf : Bytes) (v : ℕ) → v < 2 ^ 64 → append_varint buf v ≡ buf ++ groups 9 v
unfolding append_varint
append_varint-groups buf v h = varint_loop-groups 9 buf v (lt_wf.apply v) (omega arith)

groups-IsByte : (k v : ℕ) → v < 128 ^ suc k → All IsByte (groups k v)
unfolding groups
groups-IsByte zero v h = (omega arith, tt)
groups-IsByte (suc k) v h = ground (arith, groups-IsByte k (v / 128) (omega arith))

pub length-groups : (k v : ℕ) → (1 ≤ length (groups k v)) × (length (groups k v) ≤ k + 1)
unfolding groups
length-groups zero v = omega arith
length-groups (suc k) v = ground (arith, length-groups k (v / 128))

-- On every uint64 appendVarint keeps what the buffer held and adds 1 to 10 bytes.
pub append_varint_shape :
    (buf : Bytes) (v : ℕ)
    → v < 2 ^ 64
    → (added : Bytes) × (append_varint buf v ≡ buf ++ added)
      × All IsByte added
      × (1 ≤ length added)
      × (length added ≤ 10)
append_varint_shape buf v h =
    let (lo, hi) = length-groups 9 v in
    (groups 9 v, append_varint-groups buf v h, groups-IsByte 9 v (omega arith), lo, hi)
