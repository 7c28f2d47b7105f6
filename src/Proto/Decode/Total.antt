-- ===== src/Proto/Decode/Total.antt =====
-- How much a round of the loop of DecodeProto takes of the body, and where the loop ends.
use esphome_mpubsub.Base.{ℕ, zero, suc, ◌+◌, ◌/◌, ◌%◌, ◌^◌, ◌≤◌, ◌≡◌, refl, ◌∙◌, arith}
use esphome_mpubsub.Base.{
  List, [], ◌∷◌, Bytes, length, drop, length-drop, bit_and, Option, none, some, Result, ok, err,
}
use esphome_mpubsub.Base.{Option-cases, Result-cases, inl, inr}
use esphome_mpubsub.Schema.{Schema, SchemaField}
use esphome_mpubsub.Proto.Varint.{read_varint}
use esphome_mpubsub.Proto.Varint.Reading.{read_varint_bounds}
use esphome_mpubsub.Proto.Value.{Any, Floats, truncated_tag, ProtoError, decode_value}
use esphome_mpubsub.Proto.Value.Bounds.{decode_value_bounds}
use esphome_mpubsub.Proto.Decode.{skip_field, decode_field, known_field, decode_loop, decode_proto}

-- A field that is skipped takes one byte at least, and no more than there are.
pub skip_field_bounds :
    (body : Bytes) (wt n : ℕ) → skip_field body wt ≡ ok n → (1 ≤ n) × (n ≤ length body)
unfolding skip_field
skip_field_bounds body wt n h = elim (Option-cases (read_varint body)) [
  | inl e ↦ ground arith
  | inr ((x, m), e) ↦ ground (arith, read_varint_bounds body x m e)
]

decode_field_bounds :
    (fl : Floats) (f : Option SchemaField) (field wt : ℕ) (rest : Bytes)
    (out out' : List (Bytes × Any)) (n : ℕ)
    → decode_field fl f field wt rest out ≡ ok (out', n)
    → (1 ≤ n) × (n ≤ length rest)
unfolding decode_field
decode_field_bounds fl none field wt rest out out' n h = elim (Result-cases (skip_field rest wt)) [
  | inl (m, e) ↦ ground (arith, skip_field_bounds rest wt m e)
  | inr (x, e) ↦ absurd (ground arith)
]
decode_field_bounds fl (some f) field wt rest out out' n h =
    elim (Result-cases (decode_value fl rest f.typ wt)) [
      | inl ((v, m), e) ↦ ground (arith, decode_value_bounds fl rest v m f.typ wt e)
      | inr (x, e) ↦ absurd (ground arith)
    ]

-- The loop returns a value or an error.
abbrev pub IsEnded : Option (Result ProtoError (List (Bytes × Any))) → Type 0
IsEnded o = (r : Result ProtoError (List (Bytes × Any))) × (o ≡ some r)

module _ (fl : Floats) (s : Schema) where
  pub decode_loop_end :
      (fuel i : ℕ) (out : List (Bytes × Any)) → decode_loop fl s fuel i [] out ≡ some (ok out)
  unfolding decode_loop
  decode_loop_end fuel i out = refl

  -- A round that reads a tag and a value.
  pub decode_loop_round :
      (fuel i : ℕ) (rest : Bytes) (out out' : List (Bytes × Any)) (key n m : ℕ)
      → read_varint rest ≡ some (key, n)
      → decode_field fl
          (known_field s (key / 2 ^ 3 % 2 ^ 32))
          (key / 2 ^ 3 % 2 ^ 32)
          (bit_and key 0x7)
          (drop n rest)
          out
        ≡ ok (out', m)
      → decode_loop fl s (suc fuel) i rest out
        ≡ decode_loop fl s fuel (i + n + m) (drop m (drop n rest)) out'
  unfolding decode_loop
  decode_loop_round fuel i [] out out' key n m e d =
      absurd (omega (arith, read_varint_bounds [] key n e))
  decode_loop_round fuel i (b ∷ bs) out out' key n m e d = rw (decode_loop, e, d) refl

  decode_loop_ends :
      (fuel i : ℕ) (rest : Bytes) (out : List (Bytes × Any))
      → length rest ≤ fuel
      → IsEnded (decode_loop fl s fuel i rest out)
  unfolding decode_loop
  decode_loop_ends fuel i [] out h = (ok out, refl)
  decode_loop_ends zero i (b ∷ bs) out h = absurd (omega arith)
  decode_loop_ends (suc fuel) i (b ∷ bs) out h = elim (Option-cases (read_varint (b ∷ bs))) [
    | inl e ↦ (err (truncated_tag i), rw (decode_loop, e) refl)
    | inr ((key, n), e) ↦
        let tail = drop n (b ∷ bs) in
        let field = key / 2 ^ 3 % 2 ^ 32 in
        elim (Result-cases
          (decode_field fl (known_field s field) field (bit_and key 0x7) tail out)) [
            | inl ((out', m), d) ↦
                let tag = read_varint_bounds (b ∷ bs) key n e in
                let val =
                  decode_field_bounds fl (known_field s field) field (bit_and key 0x7) tail out out'
                    m d in
                let (r, end) =
                  decode_loop_ends fuel (i + n + m) (drop m tail) out'
                    (omega (arith, length-drop m tail, length-drop n (b ∷ bs), tag, val)) in
                (r, decode_loop_round fuel i (b ∷ bs) out out' key n m e d ∙ end)
            | inr (x, d) ↦ (err x, rw (decode_loop, e, d) refl)
          ]
  ]

  -- On every body DecodeProto returns: each round takes a tag and a value, of a byte at least each,
  -- so a round for each byte is enough.
  pub decode_proto_total : (body : Bytes) → IsEnded (decode_proto fl s body)
  unfolding decode_proto
  decode_proto_total body = decode_loop_ends (length body) 0 body [] (omega arith)
