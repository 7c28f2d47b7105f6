-- ===== src/Proto/Value.antt =====
-- The values that proto.go handles, and its coercions and codec of one value.
-- An integer of any Go type is its bit pattern at that type's width, a float its IEEE pattern.
pub mod Bounds
pub mod Typed
pub mod RoundTrip
pub mod Taken
pub mod Accepted
use esphome_mpubsub.Base.{
  ℕ, zero, suc, ◌+◌, ◌-◌, ◌*◌, ◌/◌, ◌%◌, ◌^◌, Bool, true, false, not, ◌||◌, ◌==◌, ltb, leb,
}
use esphome_mpubsub.Base.{if◌then◌else◌, List, [], ◌∷◌, ◌++◌, Bytes, length, take, drop, get_or}
use esphome_mpubsub.Base.{Option, none, some, Result, ok, err, ◌>>=◌}
use esphome_mpubsub.Wire.Words.{put_u32, get_u32}
use esphome_mpubsub.Schema.{
  Kind, kind_of, bool_kind, int32_kind, int64_kind, uint32_kind, uint64_kind,
}
use esphome_mpubsub.Schema.{sint32_kind, sint64_kind, float_kind, string_kind, bytes_kind}
use esphome_mpubsub.Proto.Varint.{append_varint, read_varint}
use esphome_mpubsub.Proto.Zigzag.{zigzag32, zigzag64, unzigzag32, unzigzag64}

-- The dynamic types that a type switch of the program names; `other` is a value of any other type.
pub data Scalar : Type 0 where
  bool_val : Bool → Scalar
  int_val int32_val int64_val uint_val uint32_val uint64_val : ℕ → Scalar
  float64_val float32_val : ℕ → Scalar
  string_val bytes_val : Bytes → Scalar
  other : ℕ → Scalar

-- An `any`: a scalar, or a `[]any`. An element that is a list itself is an `other`.
pub data Any : Type 0 where
  one : Scalar → Any
  many : List Scalar → Any

-- The conversions of Go's floats, on bit patterns.
pub record Floats : Type 0 where
  pub is_whole : ℕ → Bool
  pub is_negative : ℕ → Bool
  pub to_i64 : ℕ → ℕ
  pub to_u64 : ℕ → ℕ
  pub of_i64 : ℕ → ℕ
  pub of_u64 : ℕ → ℕ
  pub narrow : ℕ → ℕ
  pub widen : ℕ → ℕ

pub data ProtoError : Type 0 where
  no_wire_type unsupported_type : Bytes → ProtoError
  type_mismatch : Bytes → Any → ProtoError
  fractional not_unsigned : ℕ → ProtoError
  negative : ℕ → ProtoError
  not_a_number : Any → ProtoError
  repeated_not_list : Bytes → ProtoError
  wire_type_mismatch : ℕ → Bytes → ℕ → ProtoError
  truncated overruns : Kind → ProtoError
  truncated_varint truncated_fixed32 truncated_length length_overflow : ProtoError
  unsupported_wire_type : ℕ → ProtoError
  truncated_tag : ℕ → ProtoError
  skip_unknown : ℕ → ProtoError → ProtoError
  in_field : Bytes → ProtoError → ProtoError

abbrev pub wire_varint : ℕ
wire_varint = 0

abbrev pub wire_len : ℕ
wire_len = 2

abbrev pub wire_fixed32 : ℕ
wire_fixed32 = 5

unfoldable pub kind_wire_type : Kind → ℕ
kind_wire_type float_kind = wire_fixed32
kind_wire_type string_kind = wire_len
kind_wire_type bytes_kind = wire_len
kind_wire_type _ = wire_varint

unfoldable pub wire_type_for : Bytes → Result ProtoError ℕ
wire_type_for typ = elim (kind_of typ) [
  | none ↦ err (no_wire_type typ)
  | some k ↦ ok (kind_wire_type k)
]

-- `int64(x)` of an int32.
abbrev pub extend32 : ℕ → ℕ
extend32 x = if ltb x (2 ^ 31) then x else x + (2 ^ 64 - 2 ^ 32)

abbrev pub is_minus : ℕ → ℕ → Bool
is_minus w x = leb (2 ^ (w - 1)) x

module _ (fl : Floats) where
  unfoldable pub float_to_int64 : ℕ → Result ProtoError ℕ
  float_to_int64 x = if fl.is_whole x then ok (fl.to_i64 x) else err (fractional x)

  unfoldable pub to_int64 : Any → Result ProtoError ℕ
  to_int64 (one (int_val x)) = ok x
  to_int64 (one (int32_val x)) = ok (extend32 x)
  to_int64 (one (int64_val x)) = ok x
  to_int64 (one (uint_val x)) = ok x
  to_int64 (one (uint32_val x)) = ok x
  to_int64 (one (uint64_val x)) = ok x
  to_int64 (one (float64_val x)) = float_to_int64 x
  to_int64 (one (float32_val x)) = float_to_int64 (fl.widen x)
  to_int64 v = err (not_a_number v)

  unfoldable pub to_uint64 : Any → Result ProtoError ℕ
  to_uint64 (one (int_val x)) = if is_minus 64 x then err (negative x) else ok x
  to_uint64 (one (int32_val x)) = if is_minus 32 x then err (negative x) else ok x
  to_uint64 (one (int64_val x)) = if is_minus 64 x then err (negative x) else ok x
  to_uint64 (one (uint_val x)) = ok x
  to_uint64 (one (uint32_val x)) = ok x
  to_uint64 (one (uint64_val x)) = ok x
  to_uint64 (one (float64_val x)) =
      if not (fl.is_whole x) || fl.is_negative x then err (not_unsigned x) else ok (fl.to_u64 x)
  to_uint64 v = err (not_a_number v)

  unfoldable pub to_float64 : Any → Result ProtoError ℕ
  to_float64 (one (float64_val x)) = ok x
  to_float64 (one (float32_val x)) = ok (fl.widen x)
  to_float64 (one (int_val x)) = ok (fl.of_i64 x)
  to_float64 (one (int32_val x)) = ok (fl.of_i64 (extend32 x))
  to_float64 (one (int64_val x)) = ok (fl.of_i64 x)
  to_float64 (one (uint32_val x)) = ok (fl.of_u64 x)
  to_float64 (one (uint64_val x)) = ok (fl.of_u64 x)
  to_float64 v = err (not_a_number v)

  unfoldable pub append_bool : Bytes → Bytes → Any → Result ProtoError Bytes
  append_bool buf typ (one (bool_val true)) = ok (append_varint buf 1)
  append_bool buf typ (one (bool_val false)) = ok (append_varint buf 0)
  append_bool buf typ v = err (type_mismatch typ v)

  unfoldable pub append_string : Bytes → Bytes → Any → Result ProtoError Bytes
  append_string buf typ (one (string_val s)) = ok (append_varint buf (length s) ++ s)
  append_string buf typ v = err (type_mismatch typ v)

  unfoldable pub append_bytes : Bytes → Bytes → Any → Result ProtoError Bytes
  append_bytes buf typ (one (bytes_val b)) = ok (append_varint buf (length b) ++ b)
  append_bytes buf typ v = err (type_mismatch typ v)

  -- The cases of the switch.
  unfoldable pub append_kind : Bytes → Bytes → Kind → Any → Result ProtoError Bytes
  unfolding append_bool append_string append_bytes
  append_kind buf typ bool_kind v = append_bool buf typ v
  append_kind buf typ int32_kind v = do n ← to_int64 v; ok (append_varint buf n)
  append_kind buf typ int64_kind v = do n ← to_int64 v; ok (append_varint buf n)
  append_kind buf typ uint32_kind v = do n ← to_uint64 v; ok (append_varint buf n)
  append_kind buf typ uint64_kind v = do n ← to_uint64 v; ok (append_varint buf n)
  append_kind buf typ sint32_kind v = do
    n ← to_int64 v
    ok (append_varint buf (zigzag32 (n % 2 ^ 32)))
  append_kind buf typ sint64_kind v = do n ← to_int64 v; ok (append_varint buf (zigzag64 n))
  append_kind buf typ float_kind v = do f ← to_float64 v; ok (buf ++ put_u32 (fl.narrow f))
  append_kind buf typ string_kind v = append_string buf typ v
  append_kind buf typ bytes_kind v = append_bytes buf typ v

  unfoldable pub append_value : Bytes → Bytes → Any → Result ProtoError Bytes
  append_value buf typ v = elim (kind_of typ) [
    | none ↦ err (unsupported_type typ)
    | some k ↦ append_kind buf typ k v
  ]

  -- A varint case: what to make of the value that was read.
  pub varint_case : Bytes → Kind → (ℕ → Scalar) → Result ProtoError (Scalar × ℕ)
  varint_case body k make = elim (read_varint body) [
    | none ↦ err (truncated k)
    | some (v, n) ↦ ok (make v, n)
  ]

  -- A length and as many bytes: `l > uint64(len(data)-n)` is the bound.
  pub len_case : Bytes → Kind → (Bytes → Scalar) → Result ProtoError (Scalar × ℕ)
  len_case body k make = elim (read_varint body) [
    | none ↦ err (truncated k)
    | some (l, n) ↦
        if ltb (length body - n) l
        then err (overruns k)
        else ok (make (take l (drop n body)), n + l)
  ]

  unfoldable pub decode_kind : Bytes → Kind → Result ProtoError (Scalar × ℕ)
  unfolding varint_case len_case
  decode_kind body bool_kind = varint_case body bool_kind (λ v. bool_val (not (v == 0)))
  decode_kind body int32_kind = varint_case body int32_kind (λ v. int64_val (extend32 (v % 2 ^ 32)))
  decode_kind body int64_kind = varint_case body int64_kind int64_val
  decode_kind body uint32_kind = varint_case body uint32_kind (λ v. uint64_val (v % 2 ^ 32))
  decode_kind body uint64_kind = varint_case body uint64_kind uint64_val
  decode_kind body sint32_kind =
      varint_case body sint32_kind (λ v. int64_val (extend32 (unzigzag32 (v % 2 ^ 32))))
  decode_kind body sint64_kind = varint_case body sint64_kind (λ v. int64_val (unzigzag64 v))
  decode_kind body float_kind =
      if ltb (length body) 4
      then err (truncated float_kind)
      else let at = λ (i : ℕ). get_or body i 0 in
        ok (float64_val (fl.widen (get_u32 (at 0) (at 1) (at 2) (at 3))), 4)
  decode_kind body string_kind = len_case body string_kind string_val
  decode_kind body bytes_kind = len_case body bytes_kind bytes_val

  unfoldable pub decode_value : Bytes → Bytes → ℕ → Result ProtoError (Scalar × ℕ)
  decode_value body typ wt = do
    expected ← wire_type_for typ
    if wt == expected
        then elim (kind_of typ) [ none ↦ err (unsupported_type typ) | some k ↦ decode_kind body k ]
        else err (wire_type_mismatch wt typ expected)
