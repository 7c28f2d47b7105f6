-- ===== src/Proto/Value/Typed.antt =====
-- The Go values that decodeValue returns.
use mathlib.Core.Path.{subst}
use esphome_mpubsub.Base.{
  ℕ, ◌^◌, ◌%◌, ◌<◌, ◌≡◌, refl, arith, ltb, Bool-cases, Option-cases, inl, inr,
}
use esphome_mpubsub.Base.{◌-◌, take, drop, get_or, Bytes, length, ok, some}
use esphome_mpubsub.Wire.Words.{get_u32}
use esphome_mpubsub.Schema.{
  Kind, kind_of, bool_kind, int32_kind, int64_kind, uint32_kind, uint64_kind, sint32_kind,
  sint64_kind, float_kind, string_kind, bytes_kind,
}
use esphome_mpubsub.Proto.Zigzag.{unzigzag32, unzigzag64}
use esphome_mpubsub.Proto.Varint.{read_varint}
use esphome_mpubsub.Proto.Varint.Reading.{read_varint_bounds}
use esphome_mpubsub.Proto.Value.{
  Scalar, bool_val, int64_val, uint64_val, float64_val, string_val, bytes_val, extend32, Floats,
  varint_case, len_case, decode_kind, decode_value, wire_type_for,
}

-- The Go type of a value of a kind, and the numbers that it has.
abbrev pub IsOfKind : Kind → Scalar → Type 0
IsOfKind bool_kind (bool_val b) = Unit {0}
IsOfKind int32_kind (int64_val x) = (n : ℕ) × (n < 2 ^ 32) × (x ≡ extend32 n)
IsOfKind int64_kind (int64_val x) = x < 2 ^ 64
IsOfKind uint32_kind (uint64_val x) = x < 2 ^ 32
IsOfKind uint64_kind (uint64_val x) = x < 2 ^ 64
IsOfKind sint32_kind (int64_val x) = (n : ℕ) × (n < 2 ^ 32) × (x ≡ extend32 (unzigzag32 n))
IsOfKind sint64_kind (int64_val x) = (n : ℕ) × (n < 2 ^ 64) × (x ≡ unzigzag64 n)
IsOfKind float_kind (float64_val x) = Unit {0}
IsOfKind string_kind (string_val s) = Unit {0}
IsOfKind bytes_kind (bytes_val s) = Unit {0}
IsOfKind _ _ = ⊥

module _ (fl : Floats) (body : Bytes) (v : Scalar) (n : ℕ) where
  varint_case_value :
      (k : Kind) (make : ℕ → Scalar)
      → varint_case fl body k make ≡ ok (v, n)
      → (x : ℕ) × (x < 2 ^ 64) × (make x ≡ v)
  unfolding varint_case
  varint_case_value k make h = elim (Option-cases (read_varint body)) [
    | inl e ↦ absurd (ground arith)
    | inr ((x, m), e) ↦ (x, ground (arith, read_varint_bounds body x m e), ground arith)
  ]

  len_case_value :
      (k : Kind) (make : Bytes → Scalar)
      → len_case fl body k make ≡ ok (v, n)
      → (s : Bytes) × (make s ≡ v)
  unfolding len_case
  len_case_value k make h = elim (Option-cases (read_varint body)) [
    | inl e ↦ absurd (ground arith)
    | inr ((l, m), e) ↦ elim (Bool-cases (ltb (length body - m) l)) [
      | inl over ↦ absurd (ground arith)
      | inr fits ↦ (take l (drop m body), ground arith)
    ]
  ]

  decode_kind-IsOfKind : (k : Kind) → decode_kind fl body k ≡ ok (v, n) → IsOfKind k v
  unfolding decode_kind
  decode_kind-IsOfKind bool_kind h =
      let (x, lt, e) = varint_case_value bool_kind _ h in subst (IsOfKind bool_kind) e tt
  decode_kind-IsOfKind int32_kind h =
      let (x, lt, e) = varint_case_value int32_kind _ h in
      subst (IsOfKind int32_kind) e (x % 2 ^ 32, omega arith, refl)
  decode_kind-IsOfKind int64_kind h =
      let (x, lt, e) = varint_case_value int64_kind _ h in subst (IsOfKind int64_kind) e lt
  decode_kind-IsOfKind uint32_kind h =
      let (x, lt, e) = varint_case_value uint32_kind _ h in
      let small : x % 2 ^ 32 < 2 ^ 32 = omega arith in subst (IsOfKind uint32_kind) e small
  decode_kind-IsOfKind uint64_kind h =
      let (x, lt, e) = varint_case_value uint64_kind _ h in subst (IsOfKind uint64_kind) e lt
  decode_kind-IsOfKind sint32_kind h =
      let (x, lt, e) = varint_case_value sint32_kind _ h in
      subst (IsOfKind sint32_kind) e (x % 2 ^ 32, omega arith, refl)
  decode_kind-IsOfKind sint64_kind h =
      let (x, lt, e) = varint_case_value sint64_kind _ h in
      subst (IsOfKind sint64_kind) e (x, lt, refl)
  decode_kind-IsOfKind float_kind h = elim (Bool-cases (ltb (length body) 4)) [
    | inl short ↦ absurd (ground arith)
    | inr long ↦
        let at = λ (i : ℕ). get_or body i 0 in
        let same : float64_val (fl.widen (get_u32 (at 0) (at 1) (at 2) (at 3))) ≡ v =
          ground arith in
        subst (IsOfKind float_kind) same tt
  ]
  decode_kind-IsOfKind string_kind h =
      let (s, e) = len_case_value string_kind string_val h in subst (IsOfKind string_kind) e tt
  decode_kind-IsOfKind bytes_kind h =
      let (s, e) = len_case_value bytes_kind bytes_val h in subst (IsOfKind bytes_kind) e tt

  pub decode_value-IsOfKind :
      (typ : Bytes) (wt : ℕ) (k : Kind)
      → kind_of typ ≡ some k
      → decode_value fl body typ wt ≡ ok (v, n)
      → IsOfKind k v
  unfolding decode_value wire_type_for
  decode_value-IsOfKind typ wt k typed h = decode_kind-IsOfKind k (ground arith)
