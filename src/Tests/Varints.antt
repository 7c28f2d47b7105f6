-- ===== src/Tests/Varints.antt =====
-- Varints at concrete inputs.
use esphome_mpubsub.Base.{◌≡◌, refl, [], ◌∷◌, some, arith}
use esphome_mpubsub.Proto.Varint.{read_varint}
use esphome_mpubsub.Proto.Varint.Reading.{read_varint_overlong}

two_bytes : read_varint (0xAC ∷ 0x02 ∷ 9 ∷ []) ≡ some (300, 2)
unfolding read_varint
two_bytes = refl

overlong_example : read_varint (0x85 ∷ 0 ∷ 7 ∷ []) ≡ some (5, 2)
overlong_example = read_varint_overlong 5 (7 ∷ []) (omega arith)
