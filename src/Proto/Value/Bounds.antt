-- ===== src/Proto/Value/Bounds.antt =====
-- How many bytes the decoding of one value takes.
use esphome_mpubsub.Base.{ℕ, ◌≤◌, ◌≡◌, arith}
use esphome_mpubsub.Base.{Bytes, length, ok, Option-cases, inl, inr}
use esphome_mpubsub.Schema.{Kind, kind_of, float_kind, string_kind, bytes_kind}
use esphome_mpubsub.Proto.Varint.{read_varint}
use esphome_mpubsub.Proto.Varint.Reading.{read_varint_bounds}
use esphome_mpubsub.Proto.Value.{
  Scalar, string_val, bytes_val, Floats, varint_case, len_case, decode_kind, decode_value,
  wire_type_for,
}

module _ (fl : Floats) (body : Bytes) (v : Scalar) (n : ℕ) where
  varint_case_bounds :
      (k : Kind) (make : ℕ → Scalar)
      → varint_case fl body k make ≡ ok (v, n)
      → (1 ≤ n) × (n ≤ length body)
  unfolding varint_case
  varint_case_bounds k make h = elim (Option-cases (read_varint body)) [
    | inl e ↦ absurd (ground arith)
    | inr ((x, m), e) ↦ ground (arith, read_varint_bounds body x m e)
  ]

  len_case_bounds :
      (k : Kind) (make : Bytes → Scalar)
      → len_case fl body k make ≡ ok (v, n)
      → (1 ≤ n) × (n ≤ length body)
  unfolding len_case
  len_case_bounds k make h = elim (Option-cases (read_varint body)) [
    | inl e ↦ absurd (ground arith)
    | inr ((x, m), e) ↦ ground (arith, read_varint_bounds body x m e)
  ]

  decode_kind_bounds : (k : Kind) → decode_kind fl body k ≡ ok (v, n) → (1 ≤ n) × (n ≤ length body)
  unfolding decode_kind
  decode_kind_bounds float_kind h = ground arith
  decode_kind_bounds string_kind h = len_case_bounds string_kind string_val h
  decode_kind_bounds bytes_kind h = len_case_bounds bytes_kind bytes_val h
  decode_kind_bounds _ h = varint_case_bounds _ _ h

  -- A value that is decoded takes one byte at least, and no more than there are.
  pub decode_value_bounds :
      (typ : Bytes) (wt : ℕ) → decode_value fl body typ wt ≡ ok (v, n) → (1 ≤ n) × (n ≤ length body)
  unfolding decode_value wire_type_for
  decode_value_bounds typ wt h = elim (Option-cases (kind_of typ)) [
    | inl e ↦ absurd (ground arith)
    | inr (k, e) ↦ decode_kind_bounds k (ground arith)
  ]
