-- ===== src/Proto/Value/Accepted.antt =====
-- Whatever appendValue accepts, against the values that its types take.
use esphome_mpubsub.Base.{ℕ, ◌%◌, ◌^◌, ◌<◌, ◌≡◌, refl, ap, arith, Bool}
use esphome_mpubsub.Base.{
  List, ◌++◌, Bytes, length, some, Result, ok, err, ◌>>=◌, Result-cases, Option-cases, inl, inr,
}
use esphome_mpubsub.Schema.{
  Kind, kind_of, bool_kind, int32_kind, int64_kind, uint32_kind, uint64_kind,
}
use esphome_mpubsub.Schema.{sint32_kind, sint64_kind, float_kind, string_kind, bytes_kind}
use esphome_mpubsub.Proto.Value.{
  Scalar, bool_val, int64_val, uint64_val, float64_val, string_val, bytes_val, int_val, int32_val,
  uint_val, uint32_val, float32_val, one, many, extend32,
}
use esphome_mpubsub.Proto.Value.{
  Floats, ProtoError, append_kind, append_value, append_bool, append_string, append_bytes,
  decode_value, float_to_int64,
}
use esphome_mpubsub.Proto.Value.{kind_wire_type, to_int64, to_uint64, to_float64}
use esphome_mpubsub.Proto.Value.RoundTrip.{
  IsNormal, normal_bool, normal_int32, normal_int64, normal_uint32, normal_uint64, normal_sint32,
  normal_sint64, normal_float, normal_string, normal_bytes, extend32_low,
}
use esphome_mpubsub.Proto.Value.Taken.{IsTaken, sent_bytes, settle, decode_value-sent_bytes}

-- A conversion of floats gives a pattern of its width.
pub record IsFloats (fl : Floats) : Type 0 where
  pub i64 : (x : ℕ) → fl.to_i64 x < 2 ^ 64
  pub u64 : (x : ℕ) → fl.to_u64 x < 2 ^ 64
  pub f32 : (x : ℕ) → fl.narrow x < 2 ^ 32

-- A Go value is a pattern of its type's width; a length is an int.
abbrev pub IsGo : Scalar → Type 0
IsGo (int_val x) = x < 2 ^ 64
IsGo (int32_val x) = x < 2 ^ 32
IsGo (int64_val x) = x < 2 ^ 64
IsGo (uint_val x) = x < 2 ^ 64
IsGo (uint32_val x) = x < 2 ^ 32
IsGo (uint64_val x) = x < 2 ^ 64
IsGo (string_val s) = length s < 2 ^ 64
IsGo (bytes_val s) = length s < 2 ^ 64
IsGo _ = Unit {0}

-- No type takes a list.
append_kind_list :
    (fl : Floats) (buf typ out : Bytes) (xs : List Scalar) (k : Kind)
    → ¬ (append_kind fl buf typ k (many xs) ≡ ok out)
unfolding append_kind append_bool append_string append_bytes to_int64 to_uint64 to_float64
append_kind_list fl buf typ out xs bool_kind e = ground arith
append_kind_list fl buf typ out xs k e = ground arith

pub append_value_list :
    (fl : Floats) (buf typ out : Bytes) (xs : List Scalar)
    → ¬ (append_value fl buf typ (many xs) ≡ ok out)
unfolding append_value
append_value_list fl buf typ out xs e = elim (Option-cases (kind_of typ)) [
  | inl bad ↦ ground arith
  | inr (k, typed) ↦ append_kind_list fl buf typ out xs k (ground arith)
]

module _ (fl : Floats) (lawful : IsFloats fl) where
  to_int64-lt : (sc : Scalar) (n : ℕ) → IsGo sc → to_int64 fl (one sc) ≡ ok n → n < 2 ^ 64
  unfolding to_int64 float_to_int64
  to_int64-lt (float64_val x) n h e = ground (arith, lawful.i64 x)
  to_int64-lt (float32_val x) n h e = ground (arith, lawful.i64 (fl.widen x))
  to_int64-lt sc n h e = ground arith

  to_uint64-lt : (sc : Scalar) (n : ℕ) → IsGo sc → to_uint64 fl (one sc) ≡ ok n → n < 2 ^ 64
  unfolding to_uint64
  to_uint64-lt (float64_val x) n h e = ground (arith, lawful.u64 x)
  to_uint64-lt sc n h e = ground arith

  bool_taken :
      (buf typ out : Bytes) (sc : Scalar)
      → append_bool fl buf typ (one sc) ≡ ok out
      → (b : Bool) × (sc ≡ bool_val b)
  unfolding append_bool
  bool_taken buf typ out (bool_val b) e = (b, refl)
  bool_taken buf typ out sc e = absurd (ground arith)

  string_taken :
      (buf typ out : Bytes) (sc : Scalar)
      → IsGo sc
      → append_string fl buf typ (one sc) ≡ ok out
      → (s : Bytes) × (sc ≡ string_val s) × (length s < 2 ^ 64)
  unfolding append_string
  string_taken buf typ out (string_val s) go e = (s, refl, go)
  string_taken buf typ out sc go e = absurd (ground arith)

  bytes_taken :
      (buf typ out : Bytes) (sc : Scalar)
      → IsGo sc
      → append_bytes fl buf typ (one sc) ≡ ok out
      → (s : Bytes) × (sc ≡ bytes_val s) × (length s < 2 ^ 64)
  unfolding append_bytes
  bytes_taken buf typ out (bytes_val s) go e = (s, refl, go)
  bytes_taken buf typ out sc go e = absurd (ground arith)

  module _ (buf typ out : Bytes) (sc : Scalar) (go : IsGo sc) where
    taken_int :
        (r : Result ProtoError ℕ) (f : ℕ → Bytes)
        → ((n : ℕ) → r ≡ ok n → n < 2 ^ 64)
        → (r >>= λ n. ok (f n)) ≡ ok out
        → (n : ℕ) × (r ≡ ok n) × (n < 2 ^ 64)
    taken_int (ok n) f h e = (n, refl, h n refl)
    taken_int (err x) f h e = cc

    append_kind-IsTaken : (k : Kind) → append_kind fl buf typ k (one sc) ≡ ok out → IsTaken fl k sc
    unfolding append_kind
    append_kind-IsTaken bool_kind e = bool_taken buf typ out sc e
    append_kind-IsTaken int32_kind e =
        taken_int (to_int64 fl (one sc)) _ (λ n. to_int64-lt sc n go) e
    append_kind-IsTaken int64_kind e =
        taken_int (to_int64 fl (one sc)) _ (λ n. to_int64-lt sc n go) e
    append_kind-IsTaken uint32_kind e =
        taken_int (to_uint64 fl (one sc)) _ (λ n. to_uint64-lt sc n go) e
    append_kind-IsTaken uint64_kind e =
        taken_int (to_uint64 fl (one sc)) _ (λ n. to_uint64-lt sc n go) e
    append_kind-IsTaken sint32_kind e =
        taken_int (to_int64 fl (one sc)) _ (λ n. to_int64-lt sc n go) e
    append_kind-IsTaken sint64_kind e =
        taken_int (to_int64 fl (one sc)) _ (λ n. to_int64-lt sc n go) e
    append_kind-IsTaken float_kind e = elim (Result-cases (to_float64 fl (one sc))) [
      | inl (x, e') ↦ (x, e', lawful.f32 x)
      | inr (x, bad) ↦ absurd (ground arith)
    ]
    append_kind-IsTaken string_kind e = string_taken buf typ out sc go e
    append_kind-IsTaken bytes_kind e = bytes_taken buf typ out sc go e

  pub append_value-IsTaken :
      (buf typ out : Bytes) (k : Kind) (sc : Scalar)
      → IsGo sc
      → kind_of typ ≡ some k
      → append_value fl buf typ (one sc) ≡ ok out
      → IsTaken fl k sc
  unfolding append_value
  append_value-IsTaken buf typ out k sc go e h =
      append_kind-IsTaken buf typ out sc go k (ground arith)

  -- Whatever appendValue accepts of the Go types it knows, decodeValue reads back as the number of
  -- the type's coercion, of which int32, uint32 and sint32 keep the low 32 bits, or as the Boolean,
  -- the text or the bytes; it takes the bytes that were written, whatever follows.
  pub decode_value-append_value_taken :
      (buf rest typ out : Bytes) (k : Kind) (sc : Scalar)
      → IsGo sc
      → kind_of typ ≡ some k
      → append_value fl buf typ (one sc) ≡ ok out
      → (sent : Bytes) × (out ≡ buf ++ sent)
        × (decode_value fl (sent ++ rest) typ (kind_wire_type k) ≡ ok (settle fl k sc, length sent))
  decode_value-append_value_taken buf rest typ out k sc go e h =
      let taken = append_value-IsTaken buf typ out k sc go e h in
      let (wrote, reads) = decode_value-sent_bytes fl buf rest typ k sc e taken in
      (sent_bytes fl k sc, ground arith, reads)

pub IsNormal-IsTaken :
    (fl : Floats) (k : Kind) (sc : Scalar)
    → IsNormal fl k sc
    → IsTaken fl k sc × (settle fl k sc ≡ sc)
unfolding settle to_int64 to_uint64 to_float64
IsNormal-IsTaken fl _ _ (normal_bool b) = ((b, refl), refl)
IsNormal-IsTaken fl _ _ (normal_int32 v h) =
    ((extend32 v, refl, ground arith), ap (λ (t : ℕ). int64_val (extend32 t)) (extend32_low v h))
IsNormal-IsTaken fl _ _ (normal_int64 v h) = ((v, refl, h), refl)
IsNormal-IsTaken fl _ _ (normal_uint32 v h) =
    ((v, refl, omega arith), ap uint64_val (let low : v % 2 ^ 32 ≡ v = omega arith in low))
IsNormal-IsTaken fl _ _ (normal_uint64 v h) = ((v, refl, h), refl)
IsNormal-IsTaken fl _ _ (normal_sint32 v h) =
    ((extend32 v, refl, ground arith), ap (λ (t : ℕ). int64_val (extend32 t)) (extend32_low v h))
IsNormal-IsTaken fl _ _ (normal_sint64 v h) = ((v, refl, h), refl)
IsNormal-IsTaken fl _ _ (normal_float x h w) = ((x, refl, h), ap float64_val w)
IsNormal-IsTaken fl _ _ (normal_string s h) = ((s, refl, h), refl)
IsNormal-IsTaken fl _ _ (normal_bytes s h) = ((s, refl, h), refl)
