-- ===== src/Proto/Value/RoundTrip.antt =====
-- The values that decodeValue makes, and the bytes of such a value on the wire.
use esphome_mpubsub.Base.{
  ℕ, ◌-◌, ◌/◌, ◌%◌, ◌^◌, ◌≤◌, ◌<◌, ◌≡◌, refl, ap, ◌∙◌, arith, ltb, ◌==◌, Bool, true, false, not,
}
use esphome_mpubsub.Base.{[], ◌++◌, Bytes, length, drop, some, ok}
use esphome_mpubsub.Base.{
  length-append, take-append_length, drop-append_length, append_assoc, le→ltb_false,
}
use esphome_mpubsub.Wire.Words.{put_u32, get_u32}
use esphome_mpubsub.Schema.{
  Kind, kind_of, bool_kind, int32_kind, int64_kind, uint32_kind, uint64_kind,
}
use esphome_mpubsub.Schema.{sint32_kind, sint64_kind, float_kind, string_kind, bytes_kind}
use esphome_mpubsub.Proto.Varint.Groups.{groups, append_varint-groups, length-groups}
use esphome_mpubsub.Proto.Varint.Reading.{read_varint-groups}
use esphome_mpubsub.Proto.Zigzag.{
  zigzag32, zigzag64, unzigzag32, unzigzag64, unzigzag32-zigzag32, unzigzag64-zigzag64, zigzag32-lt,
  zigzag64-lt,
}
use esphome_mpubsub.Proto.Value.{
  Scalar, bool_val, int64_val, uint64_val, float64_val, string_val, bytes_val, one, extend32,
}
use esphome_mpubsub.Proto.Value.{
  Floats, varint_case, len_case, append_kind, append_value, decode_kind, decode_value,
}
use esphome_mpubsub.Proto.Value.{kind_wire_type, wire_type_for, to_int64, to_uint64, to_float64}

pub extend32_low : (v : ℕ) → v < 2 ^ 32 → extend32 v % 2 ^ 32 ≡ v
extend32_low v h = ground arith

pub sint32_code-lt : (v : ℕ) → zigzag32 (v % 2 ^ 32) < 2 ^ 64
sint32_code-lt v = omega (arith, zigzag32-lt (v % 2 ^ 32) (omega arith))

put_u32_read :
    (w : ℕ)
    → w < 2 ^ 32
    → get_u32 (w % 256) (w / 2 ^ 8 % 256) (w / 2 ^ 16 % 256) (w / 2 ^ 24 % 256) ≡ w
unfolding get_u32
put_u32_read w h = omega arith

module _ (fl : Floats) where
  -- The values that decodeValue makes of a type, at the Go type that it gives them.
  pub data IsNormal : Kind → Scalar → Type 0 where
    normal_bool : (b : Bool) → IsNormal bool_kind (bool_val b)
    normal_int32 : (v : ℕ) → v < 2 ^ 32 → IsNormal int32_kind (int64_val (extend32 v))
    normal_int64 : (v : ℕ) → v < 2 ^ 64 → IsNormal int64_kind (int64_val v)
    normal_uint32 : (v : ℕ) → v < 2 ^ 32 → IsNormal uint32_kind (uint64_val v)
    normal_uint64 : (v : ℕ) → v < 2 ^ 64 → IsNormal uint64_kind (uint64_val v)
    normal_sint32 : (v : ℕ) → v < 2 ^ 32 → IsNormal sint32_kind (int64_val (extend32 v))
    normal_sint64 : (v : ℕ) → v < 2 ^ 64 → IsNormal sint64_kind (int64_val v)
    normal_float :
        (x : ℕ)
        → fl.narrow x < 2 ^ 32
        → fl.widen (fl.narrow x) ≡ x
        → IsNormal float_kind (float64_val x)
    normal_string : (s : Bytes) → length s < 2 ^ 64 → IsNormal string_kind (string_val s)
    normal_bytes : (s : Bytes) → length s < 2 ^ 64 → IsNormal bytes_kind (bytes_val s)

  -- The bytes of a value: the groups of a number, four bytes, or a length and the content.
  pub wire_bytes : Kind → Scalar → Bytes
  wire_bytes sint32_kind (int64_val v) = groups 9 (zigzag32 (v % 2 ^ 32))
  wire_bytes sint64_kind (int64_val v) = groups 9 (zigzag64 v)
  wire_bytes _ (bool_val true) = groups 9 1
  wire_bytes _ (bool_val false) = groups 9 0
  wire_bytes _ (int64_val v) = groups 9 v
  wire_bytes _ (uint64_val v) = groups 9 v
  wire_bytes _ (float64_val x) = put_u32 (fl.narrow x)
  wire_bytes _ (string_val s) = groups 9 (length s) ++ s
  wire_bytes _ (bytes_val s) = groups 9 (length s) ++ s
  wire_bytes _ _ = []

  append_kind-wire_bytes :
      (buf typ : Bytes) (k : Kind) (sc : Scalar)
      → IsNormal k sc
      → append_kind fl buf typ k (one sc) ≡ ok (buf ++ wire_bytes k sc)
  unfolding append_kind wire_bytes to_int64 to_uint64 to_float64
  append_kind-wire_bytes buf typ _ _ (normal_bool true) =
      ap ok (append_varint-groups buf 1 (omega arith))
  append_kind-wire_bytes buf typ _ _ (normal_bool false) =
      ap ok (append_varint-groups buf 0 (omega arith))
  append_kind-wire_bytes buf typ _ _ (normal_int32 v h) =
      ap ok (append_varint-groups buf (extend32 v) (ground arith))
  append_kind-wire_bytes buf typ _ _ (normal_int64 v h) = ap ok (append_varint-groups buf v h)
  append_kind-wire_bytes buf typ _ _ (normal_uint32 v h) =
      ap ok (append_varint-groups buf v (omega arith))
  append_kind-wire_bytes buf typ _ _ (normal_uint64 v h) = ap ok (append_varint-groups buf v h)
  append_kind-wire_bytes buf typ _ _ (normal_sint32 v h) =
      ap ok
        (append_varint-groups buf (zigzag32 (extend32 v % 2 ^ 32)) (sint32_code-lt (extend32 v)))
  append_kind-wire_bytes buf typ _ _ (normal_sint64 v h) =
      ap ok (append_varint-groups buf (zigzag64 v) (zigzag64-lt v h))
  append_kind-wire_bytes buf typ _ _ (normal_float x h w) = refl
  append_kind-wire_bytes buf typ _ _ (normal_string s h) = ap ok (
      ap (λ (t : Bytes). t ++ s) (append_varint-groups buf (length s) h)
      ∙ append_assoc buf (groups 9 (length s)) s)
  append_kind-wire_bytes buf typ _ _ (normal_bytes s h) = ap ok (
      ap (λ (t : Bytes). t ++ s) (append_varint-groups buf (length s) h)
      ∙ append_assoc buf (groups 9 (length s)) s)

  pub varint_case-groups :
      (v : ℕ) (rest : Bytes) (k : Kind) (make : ℕ → Scalar)
      → v < 2 ^ 64
      → varint_case fl (groups 9 v ++ rest) k make ≡ ok (make v, length (groups 9 v))
  unfolding varint_case
  varint_case-groups v rest k make h = rw (varint_case, read_varint-groups v rest h) refl

  pub len_case-groups :
      (s rest : Bytes) (k : Kind) (make : Bytes → Scalar)
      → length s < 2 ^ 64
      → len_case fl ((groups 9 (length s) ++ s) ++ rest) k make
        ≡ ok (make s, length (groups 9 (length s) ++ s))
  unfolding len_case
  len_case-groups s rest k make h =
      let at_len : drop (length (groups 9 (length s))) (groups 9 (length s) ++ (s ++ rest))
          ≡ s ++ rest =
        drop-append_length (groups 9 (length s)) (s ++ rest) in
      let big : ltb (length (groups 9 (length s) ++ (s ++ rest)) - length (groups 9 (length s)))
            (length s)
          ≡ false =
        le→ltb_false _ _
          (omega (arith, length-append (groups 9 (length s)) (s ++ rest), length-append s rest)) in
      rw (append_assoc (groups 9 (length s)) s rest, length-append (groups 9 (length s)) s)
        (rw (len_case, read_varint-groups (length s) (s ++ rest) h)
          (rw (big, at_len, take-append_length s rest) refl))

  -- `int32(v)` keeps the low half of what the varint holds.
  sint32_read :
      (v : ℕ)
      → v < 2 ^ 32
      → extend32 (unzigzag32 (zigzag32 (extend32 v % 2 ^ 32) % 2 ^ 32)) ≡ extend32 v
  sint32_read v h =
      let low : zigzag32 v % 2 ^ 32 ≡ zigzag32 v = omega (arith, zigzag32-lt v h) in
      rw (extend32_low v h, low, (unzigzag32-zigzag32 v h).1) refl

  pub float_read :
      (w : ℕ) (rest : Bytes)
      → w < 2 ^ 32
      → decode_kind fl (put_u32 w ++ rest) float_kind ≡ ok (float64_val (fl.widen w), 4)
  unfolding decode_kind put_u32
  float_read w rest h = ground (arith, put_u32_read w h)

  decode_kind-wire_bytes :
      (rest : Bytes) (k : Kind) (sc : Scalar)
      → IsNormal k sc
      → decode_kind fl (wire_bytes k sc ++ rest) k ≡ ok (sc, length (wire_bytes k sc))
  unfolding decode_kind wire_bytes put_u32
  decode_kind-wire_bytes rest _ _ (normal_bool true) =
      varint_case-groups 1 rest bool_kind (λ v. bool_val (not (v == 0))) (omega arith)
  decode_kind-wire_bytes rest _ _ (normal_bool false) =
      varint_case-groups 0 rest bool_kind (λ v. bool_val (not (v == 0))) (omega arith)
  decode_kind-wire_bytes rest _ _ (normal_int32 v h) =
      varint_case-groups (extend32 v) rest int32_kind (λ w. int64_val (extend32 (w % 2 ^ 32)))
        (ground arith)
      ∙ rw (extend32_low v h) refl
  decode_kind-wire_bytes rest _ _ (normal_int64 v h) =
      varint_case-groups v rest int64_kind int64_val h
  decode_kind-wire_bytes rest _ _ (normal_uint32 v h) =
      let low : v % 2 ^ 32 ≡ v = omega arith in
      varint_case-groups v rest uint32_kind (λ w. uint64_val (w % 2 ^ 32)) (omega arith)
      ∙ rw low refl
  decode_kind-wire_bytes rest _ _ (normal_uint64 v h) =
      varint_case-groups v rest uint64_kind uint64_val h
  decode_kind-wire_bytes rest _ _ (normal_sint32 v h) =
      varint_case-groups (zigzag32 (extend32 v % 2 ^ 32)) rest sint32_kind
        (λ w. int64_val (extend32 (unzigzag32 (w % 2 ^ 32)))) (sint32_code-lt (extend32 v))
      ∙ ap (λ (t : ℕ). ok (int64_val t, length (groups 9 (zigzag32 (extend32 v % 2 ^ 32)))))
          (sint32_read v h)
  decode_kind-wire_bytes rest _ _ (normal_sint64 v h) =
      varint_case-groups (zigzag64 v) rest sint64_kind (λ w. int64_val (unzigzag64 w))
        (zigzag64-lt v h)
      ∙ ap (λ (t : ℕ). ok (int64_val t, length (groups 9 (zigzag64 v)))) (unzigzag64-zigzag64 v h).1
  decode_kind-wire_bytes rest _ _ (normal_float x h w) =
      float_read (fl.narrow x) rest h ∙ ap (λ (t : ℕ). ok (float64_val t, 4)) w
  decode_kind-wire_bytes rest _ _ (normal_string s h) =
      len_case-groups s rest string_kind string_val h
  decode_kind-wire_bytes rest _ _ (normal_bytes s h) = len_case-groups s rest bytes_kind bytes_val h

  -- What decodeValue makes of a type is written by appendValue behind any buffer and read back by
  -- decodeValue, with the number of bytes written, whatever follows.
  pub decode_value-append_value :
      (buf rest typ : Bytes) (k : Kind) (sc : Scalar)
      → kind_of typ ≡ some k
      → IsNormal k sc
      → (append_value fl buf typ (one sc) ≡ ok (buf ++ wire_bytes k sc))
        × (decode_value fl (wire_bytes k sc ++ rest) typ (kind_wire_type k)
            ≡ ok (sc, length (wire_bytes k sc)))
  unfolding append_value decode_value wire_type_for
  decode_value-append_value buf rest typ k sc e h = (
    rw (append_value, e) (append_kind-wire_bytes buf typ k sc h),
    rw (decode_value, e) (ground (arith, decode_kind-wire_bytes rest k sc h)),
  )

  pub length-wire_bytes : (k : Kind) (sc : Scalar) → IsNormal k sc → 1 ≤ length (wire_bytes k sc)
  unfolding wire_bytes put_u32
  length-wire_bytes _ _ (normal_bool true) = (length-groups 9 1).0
  length-wire_bytes _ _ (normal_bool false) = (length-groups 9 0).0
  length-wire_bytes _ _ (normal_int32 v h) = (length-groups 9 (extend32 v)).0
  length-wire_bytes _ _ (normal_int64 v h) = (length-groups 9 v).0
  length-wire_bytes _ _ (normal_uint32 v h) = (length-groups 9 v).0
  length-wire_bytes _ _ (normal_uint64 v h) = (length-groups 9 v).0
  length-wire_bytes _ _ (normal_sint32 v h) = (length-groups 9 (zigzag32 (extend32 v % 2 ^ 32))).0
  length-wire_bytes _ _ (normal_sint64 v h) = (length-groups 9 (zigzag64 v)).0
  length-wire_bytes _ _ (normal_float x h w) = omega arith
  length-wire_bytes _ _ (normal_string s h) =
      omega (arith, length-append (groups 9 (length s)) s, length-groups 9 (length s))
  length-wire_bytes _ _ (normal_bytes s h) =
      omega (arith, length-append (groups 9 (length s)) s, length-groups 9 (length s))
