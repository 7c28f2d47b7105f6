-- ===== src/Proto/Decode.antt =====
-- DecodeProto and skipField of proto.go.
pub mod Total
use esphome_mpubsub.Base.{
  ℕ, zero, suc, ◌+◌, ◌-◌, ◌/◌, ◌%◌, ◌^◌, Bool, true, false, ◌==◌, ltb, if◌then◌else◌,
}
use esphome_mpubsub.Base.{List, [], ◌∷◌, ◌++◌, Bytes, length, drop, get_elem?, bit_and}
use esphome_mpubsub.Base.{Option, none, some, Result, ok, err, ◌>>=◌}
use esphome_mpubsub.Base.Maps.{nat_eq, bytes_eq, lookup, insert}
use esphome_mpubsub.Schema.{Schema, SchemaField}
use esphome_mpubsub.Proto.Varint.{read_varint}
use esphome_mpubsub.Proto.Value.{Scalar, Any, one, many, Floats, ProtoError, decode_value}
use esphome_mpubsub.Proto.Value.{
  truncated_varint, truncated_fixed32, truncated_length, length_overflow,
}
use esphome_mpubsub.Proto.Value.{unsupported_wire_type, truncated_tag, skip_unknown}
use esphome_mpubsub.Proto.Value.{wire_varint, wire_len, wire_fixed32}
use esphome_mpubsub.Proto.Encode.{wrap}

skip_varint : Option (ℕ × ℕ) → Result ProtoError ℕ
skip_varint none = err truncated_varint
skip_varint (some (v, n)) = ok n

skip_len : ℕ → Option (ℕ × ℕ) → Result ProtoError ℕ
skip_len size none = err truncated_length
skip_len size (some (l, n)) = if ltb (size - n) l then err length_overflow else ok (n + l)

unfoldable pub skip_field : Bytes → ℕ → Result ProtoError ℕ
unfolding skip_varint skip_len
skip_field body wt =
    if wt == wire_varint
    then skip_varint (read_varint body)
    else if wt == wire_fixed32
    then (if ltb (length body) 4 then err truncated_fixed32 else ok 4)
    else if wt == wire_len
    then skip_len (length body) (read_varint body)
    else err (unsupported_wire_type wt)

-- `cur, _ := out[name].([]any)`: what is no list counts as an empty one.
abbrev pub list_of : Option Any → List Scalar
list_of (some (many xs)) = xs
list_of _ = []

-- `out[f.Name] = append(cur, val)` or `= val`
unfoldable pub store : SchemaField → Scalar → List (Bytes × Any) → List (Bytes × Any)
store f val out =
    if f.repeated
    then insert f.name (many (list_of (lookup f.name out) ++ val ∷ [])) out
    else insert f.name (one val) out

wrap_skip : ℕ → Result ProtoError ℕ → Result ProtoError ℕ
wrap_skip field (ok n) = ok n
wrap_skip field (err e) = err (skip_unknown field e)

-- The field that a number leads to: `s.Fields[idx]` at the index that byTag holds, which is in range
-- in a schema that NewSchema made.
unfoldable pub known_field : Schema → ℕ → Option SchemaField
known_field s field = elim (lookup field s.by_tag) [
  | none ↦ none
  | some idx ↦ get_elem? s.fields idx
]

-- What a field adds to the result, and the number of bytes that it takes behind its tag.
unfoldable pub decode_field :
    Floats
    → Option SchemaField
    → ℕ
    → ℕ
    → Bytes
    → List (Bytes × Any)
    → Result ProtoError (List (Bytes × Any) × ℕ)
unfolding wrap_skip
decode_field fl none field wt rest out = do
  skip ← wrap_skip field (skip_field rest wt)
  ok (out, skip)
decode_field fl (some f) field wt rest out = do
  (val, consumed) ← wrap f.name (decode_value fl rest f.typ wt)
  ok (store f val out, consumed)

module _ (fl : Floats) (s : Schema) where
  -- The loop at offset `i`, with `rest` for `body[i:]`. `none` is no result of the program: the
  -- fuel is used up.
  unfoldable pub decode_loop :
      ℕ → ℕ → Bytes → List (Bytes × Any) → Option (Result ProtoError (List (Bytes × Any)))
  decode_loop fuel i [] out = some (ok out)
  decode_loop zero i (b ∷ bs) out = none
  decode_loop (suc fuel) i (b ∷ bs) out = elim (read_varint (b ∷ bs)) [
    | none ↦ some (err (truncated_tag i))
    | some (key, n) ↦
        let field = key / 2 ^ 3 % 2 ^ 32 in
        let rest = drop n (b ∷ bs) in
        elim (decode_field fl (known_field s field) field (bit_and key 0x7) rest out) [
          | err e ↦ some (err e)
          | ok (out', m) ↦ decode_loop fuel (i + n + m) (drop m rest) out'
        ]
  ]

  unfoldable pub decode_proto : Bytes → Option (Result ProtoError (List (Bytes × Any)))
  decode_proto body = decode_loop (length body) 0 body []
