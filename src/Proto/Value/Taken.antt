-- ===== src/Proto/Value/Taken.antt =====
-- The values that appendValue takes, of any Go type, and what decodeValue makes of what it wrote.
use esphome_mpubsub.Base.{ℕ, ◌%◌, ◌^◌, ◌<◌, ◌≡◌, refl, ap, ◌∙◌, arith, ◌==◌, Bool, true, false, not}
use esphome_mpubsub.Base.{[], ◌++◌, Bytes, length, some, Result, ok, err, append_assoc}
use esphome_mpubsub.Wire.Words.{put_u32}
use esphome_mpubsub.Schema.{
  Kind, kind_of, bool_kind, int32_kind, int64_kind, uint32_kind, uint64_kind,
}
use esphome_mpubsub.Schema.{sint32_kind, sint64_kind, float_kind, string_kind, bytes_kind}
use esphome_mpubsub.Proto.Varint.Groups.{groups, append_varint-groups}
use esphome_mpubsub.Proto.Zigzag.{
  zigzag32, zigzag64, unzigzag32, unzigzag64, unzigzag32-zigzag32, unzigzag64-zigzag64, zigzag32-lt,
  zigzag64-lt,
}
use esphome_mpubsub.Proto.Value.{
  Scalar, bool_val, int64_val, uint64_val, float64_val, string_val, bytes_val, one, extend32,
}
use esphome_mpubsub.Proto.Value.{
  Floats, ProtoError, append_kind, append_value, decode_kind, decode_value,
}
use esphome_mpubsub.Proto.Value.{kind_wire_type, wire_type_for, to_int64, to_uint64, to_float64}
use esphome_mpubsub.Proto.Value.RoundTrip.{
  sint32_code-lt, varint_case-groups, len_case-groups, float_read,
}

abbrev pub whole : Result ProtoError ℕ → ℕ
whole (ok n) = n
whole (err e) = 0

abbrev pub content : Scalar → Bytes
content (string_val s) = s
content (bytes_val s) = s
content _ = []

abbrev pub truth : Scalar → ℕ
truth (bool_val true) = 1
truth _ = 0

module _ (fl : Floats) where
  -- The bytes of a value, by the number that its type's coercion gives.
  pub sent_bytes : Kind → Scalar → Bytes
  sent_bytes bool_kind sc = groups 9 (truth sc)
  sent_bytes int32_kind sc = groups 9 (whole (to_int64 fl (one sc)))
  sent_bytes int64_kind sc = groups 9 (whole (to_int64 fl (one sc)))
  sent_bytes uint32_kind sc = groups 9 (whole (to_uint64 fl (one sc)))
  sent_bytes uint64_kind sc = groups 9 (whole (to_uint64 fl (one sc)))
  sent_bytes sint32_kind sc = groups 9 (zigzag32 (whole (to_int64 fl (one sc)) % 2 ^ 32))
  sent_bytes sint64_kind sc = groups 9 (zigzag64 (whole (to_int64 fl (one sc))))
  sent_bytes float_kind sc = put_u32 (fl.narrow (whole (to_float64 fl (one sc))))
  sent_bytes string_kind sc = groups 9 (length (content sc)) ++ content sc
  sent_bytes bytes_kind sc = groups 9 (length (content sc)) ++ content sc

  -- What a reader finds: the 32-bit types keep the low 32 bits of the number.
  unfoldable pub settle : Kind → Scalar → Scalar
  settle int32_kind sc = int64_val (extend32 (whole (to_int64 fl (one sc)) % 2 ^ 32))
  settle int64_kind sc = int64_val (whole (to_int64 fl (one sc)))
  settle uint32_kind sc = uint64_val (whole (to_uint64 fl (one sc)) % 2 ^ 32)
  settle uint64_kind sc = uint64_val (whole (to_uint64 fl (one sc)))
  settle sint32_kind sc = int64_val (extend32 (whole (to_int64 fl (one sc)) % 2 ^ 32))
  settle sint64_kind sc = int64_val (whole (to_int64 fl (one sc)))
  settle float_kind sc = float64_val (fl.widen (fl.narrow (whole (to_float64 fl (one sc)))))
  settle _ sc = sc

  abbrev IsInt64 : Result ProtoError ℕ → Type 0
  IsInt64 r = (n : ℕ) × (r ≡ ok n) × (n < 2 ^ 64)

  -- The values that a type takes.
  abbrev pub IsTaken : Kind → Scalar → Type 0
  IsTaken bool_kind sc = (b : Bool) × (sc ≡ bool_val b)
  IsTaken int32_kind sc = IsInt64 (to_int64 fl (one sc))
  IsTaken int64_kind sc = IsInt64 (to_int64 fl (one sc))
  IsTaken uint32_kind sc = IsInt64 (to_uint64 fl (one sc))
  IsTaken uint64_kind sc = IsInt64 (to_uint64 fl (one sc))
  IsTaken sint32_kind sc = IsInt64 (to_int64 fl (one sc))
  IsTaken sint64_kind sc = IsInt64 (to_int64 fl (one sc))
  IsTaken float_kind sc = (x : ℕ) × (to_float64 fl (one sc) ≡ ok x) × (fl.narrow x < 2 ^ 32)
  IsTaken string_kind sc = (s : Bytes) × (sc ≡ string_val s) × (length s < 2 ^ 64)
  IsTaken bytes_kind sc = (s : Bytes) × (sc ≡ bytes_val s) × (length s < 2 ^ 64)

  append_kind-sent_bytes :
      (buf typ : Bytes) (k : Kind) (sc : Scalar)
      → IsTaken k sc
      → append_kind fl buf typ k (one sc) ≡ ok (buf ++ sent_bytes k sc)
  unfolding append_kind sent_bytes
  append_kind-sent_bytes buf typ bool_kind sc (true, e) =
      rw e (ap ok (append_varint-groups buf 1 (omega arith)))
  append_kind-sent_bytes buf typ bool_kind sc (false, e) =
      rw e (ap ok (append_varint-groups buf 0 (omega arith)))
  append_kind-sent_bytes buf typ int32_kind sc (n, e, h) =
      rw e (ap ok (append_varint-groups buf n h))
  append_kind-sent_bytes buf typ int64_kind sc (n, e, h) =
      rw e (ap ok (append_varint-groups buf n h))
  append_kind-sent_bytes buf typ uint32_kind sc (n, e, h) =
      rw e (ap ok (append_varint-groups buf n h))
  append_kind-sent_bytes buf typ uint64_kind sc (n, e, h) =
      rw e (ap ok (append_varint-groups buf n h))
  append_kind-sent_bytes buf typ sint32_kind sc (n, e, h) =
      rw e (ap ok (append_varint-groups buf (zigzag32 (n % 2 ^ 32)) (sint32_code-lt n)))
  append_kind-sent_bytes buf typ sint64_kind sc (n, e, h) =
      rw e (ap ok (append_varint-groups buf (zigzag64 n) (zigzag64-lt n h)))
  append_kind-sent_bytes buf typ float_kind sc (x, e, h) = rw e refl
  append_kind-sent_bytes buf typ string_kind sc (s, e, h) = rw e (
      ap ok (
        ap (λ (t : Bytes). t ++ s) (append_varint-groups buf (length s) h)
        ∙ append_assoc buf (groups 9 (length s)) s))
  append_kind-sent_bytes buf typ bytes_kind sc (s, e, h) = rw e (
      ap ok (
        ap (λ (t : Bytes). t ++ s) (append_varint-groups buf (length s) h)
        ∙ append_assoc buf (groups 9 (length s)) s))

  zigzag_low :
      (n : ℕ) → extend32 (unzigzag32 (zigzag32 (n % 2 ^ 32) % 2 ^ 32)) ≡ extend32 (n % 2 ^ 32)
  zigzag_low n =
      let low : zigzag32 (n % 2 ^ 32) % 2 ^ 32 ≡ zigzag32 (n % 2 ^ 32) =
        omega (arith, zigzag32-lt (n % 2 ^ 32) (omega arith)) in
      rw (low, (unzigzag32-zigzag32 (n % 2 ^ 32) (omega arith)).1) refl

  decode_kind-sent_bytes :
      (rest : Bytes) (k : Kind) (sc : Scalar)
      → IsTaken k sc
      → decode_kind fl (sent_bytes k sc ++ rest) k ≡ ok (settle k sc, length (sent_bytes k sc))
  unfolding decode_kind sent_bytes settle put_u32
  decode_kind-sent_bytes rest bool_kind sc (true, e) =
      rw e (varint_case-groups fl 1 rest bool_kind (λ v. bool_val (not (v == 0))) (omega arith))
  decode_kind-sent_bytes rest bool_kind sc (false, e) =
      rw e (varint_case-groups fl 0 rest bool_kind (λ v. bool_val (not (v == 0))) (omega arith))
  decode_kind-sent_bytes rest int32_kind sc (n, e, h) =
      rw e (varint_case-groups fl n rest int32_kind (λ v. int64_val (extend32 (v % 2 ^ 32))) h)
  decode_kind-sent_bytes rest int64_kind sc (n, e, h) =
      rw e (varint_case-groups fl n rest int64_kind int64_val h)
  decode_kind-sent_bytes rest uint32_kind sc (n, e, h) =
      rw e (varint_case-groups fl n rest uint32_kind (λ v. uint64_val (v % 2 ^ 32)) h)
  decode_kind-sent_bytes rest uint64_kind sc (n, e, h) =
      rw e (varint_case-groups fl n rest uint64_kind uint64_val h)
  decode_kind-sent_bytes rest sint32_kind sc (n, e, h) = rw e (
      varint_case-groups fl (zigzag32 (n % 2 ^ 32)) rest sint32_kind
        (λ v. int64_val (extend32 (unzigzag32 (v % 2 ^ 32)))) (sint32_code-lt n)
      ∙ ap (λ (t : ℕ). ok (int64_val t, length (groups 9 (zigzag32 (n % 2 ^ 32))))) (zigzag_low n))
  decode_kind-sent_bytes rest sint64_kind sc (n, e, h) = rw e (
      varint_case-groups fl (zigzag64 n) rest sint64_kind (λ v. int64_val (unzigzag64 v))
        (zigzag64-lt n h)
      ∙ ap (λ (t : ℕ). ok (int64_val t, length (groups 9 (zigzag64 n))))
          (unzigzag64-zigzag64 n h).1)
  decode_kind-sent_bytes rest float_kind sc (x, e, h) = rw e (float_read fl (fl.narrow x) rest h)
  decode_kind-sent_bytes rest string_kind sc (s, e, h) =
      rw e (len_case-groups fl s rest string_kind string_val h)
  decode_kind-sent_bytes rest bytes_kind sc (s, e, h) =
      rw e (len_case-groups fl s rest bytes_kind bytes_val h)

  pub decode_value-sent_bytes :
      (buf rest typ : Bytes) (k : Kind) (sc : Scalar)
      → kind_of typ ≡ some k
      → IsTaken k sc
      → (append_value fl buf typ (one sc) ≡ ok (buf ++ sent_bytes k sc))
        × (decode_value fl (sent_bytes k sc ++ rest) typ (kind_wire_type k)
            ≡ ok (settle k sc, length (sent_bytes k sc)))
  unfolding append_value decode_value wire_type_for
  decode_value-sent_bytes buf rest typ k sc e h = (
    rw (append_value, e) (append_kind-sent_bytes buf typ k sc h),
    rw (decode_value, e) (ground (arith, decode_kind-sent_bytes rest k sc h)),
  )
