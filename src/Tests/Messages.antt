-- ===== src/Tests/Messages.antt =====
-- Values and messages at concrete inputs. The conversions of floats here are not IEEE's: a float
-- stands for a number of 32 bits.
use esphome_mpubsub.Base.{
  ◌%◌, ◌^◌, ◌≡◌, ◌≢◌, refl, true, false, [], ◌∷◌, Bytes, List, All, some, none, ok, lit, arith,
  ◌=ᵇ◌, =ᵇ_iff,
}
use esphome_mpubsub.Base.Maps.{lookup, insert, bytes_eq}
use esphome_mpubsub.Schema.{
  SchemaField, Schema, kind_of, new_schema, add_fields, add_field, compute_schema_id, sint32_kind,
}
use esphome_mpubsub.Proto.Zigzag.{zigzag32, unzigzag32}
use esphome_mpubsub.Proto.Varint.{read_varint}
use esphome_mpubsub.Proto.Value.{
  Any, one, many, Floats, int64_val, string_val, decode_value, kind_wire_type, wire_type_for,
}
use esphome_mpubsub.Proto.Value.{decode_kind, wire_len}
use esphome_mpubsub.Proto.Value.RoundTrip.{normal_sint32, normal_string}
use esphome_mpubsub.Proto.Encode.{encode_proto}
use esphome_mpubsub.Proto.Decode.{
  decode_proto, decode_loop, known_field, decode_field, store, skip_field,
}
use esphome_mpubsub.Proto.Decode.Total.{IsEnded, decode_proto_total}
use esphome_mpubsub.Proto.Message.{kept, kind_at, NormalValue}
use esphome_mpubsub.Proto.Message.Stored.{IsFresh}
use esphome_mpubsub.Proto.Message.Typed.{IsValueOf, decode_proto-IsValueOf}
use esphome_mpubsub.Proto.Message.RoundTrip.{decode_proto-encode_proto}

abbrev numbers : Floats
numbers = record {
  is_whole = λ x. true;
  is_negative = λ x. false;
  to_i64 = λ x. x;
  to_u64 = λ x. x;
  of_i64 = λ x. x;
  of_u64 = λ x. x;
  narrow = λ x. x % 2 ^ 32;
  widen = λ x. x;
}

zigzag_runs : (zigzag32 0xFFFFFFFE ≡ 3) × (unzigzag32 3 ≡ 0xFFFFFFFE)
unfolding zigzag32 unzigzag32
zigzag_runs = (refl, refl)

-- A string of two bytes with one byte behind it.
hi_read :
    decode_value numbers (2 ∷ 104 ∷ 105 ∷ 7 ∷ []) (lit "string") 2 ≡ ok (string_val (lit "hi"), 3)
unfolding decode_value wire_type_for kind_of ◌=ᵇ◌ kind_wire_type decode_kind read_varint
hi_read = refl

sint32_typed : kind_of (lit "sint32") ≡ some sint32_kind
unfolding kind_of ◌=ᵇ◌
sint32_typed = refl

abbrev pub level : SchemaField
level = record { name = lit "level"; typ = lit "sint32"; tag = 2; repeated = false }

abbrev pub labels : SchemaField
labels = record { name = lit "labels"; typ = lit "string"; tag = 300; repeated = true }

abbrev pub report : Schema
report = record {
  id = lit "report";
  fields = level ∷ labels ∷ [];
  by_tag = (2, 0) ∷ (300, 1) ∷ [];
  by_name = (lit "level", 0) ∷ (lit "labels", 1) ∷ [];
  sid = compute_schema_id (level ∷ labels ∷ []);
}

pub report_built : new_schema (lit "report") (level ∷ labels ∷ []) ≡ ok report
unfolding new_schema add_fields add_field kind_of lookup insert ◌=ᵇ◌
report_built = refl

abbrev two_labels : Any
two_labels = many (string_val (lit "a") ∷ string_val (lit "b") ∷ [])

abbrev filled : List (Bytes × Any)
filled =
    (lit "labels", two_labels)
    ∷ (lit "extra", one (int64_val 5))
    ∷ (lit "level", one (int64_val 0xFFFFFFFFFFFFFFFE))
    ∷ []

total_example : IsEnded (decode_proto numbers report (0x80 ∷ 1 ∷ 2 ∷ []))
total_example = decode_proto_total numbers report (0x80 ∷ 1 ∷ 2 ∷ [])

skipped : skip_field (2 ∷ 8 ∷ 9 ∷ 1 ∷ []) wire_len ≡ ok 3
unfolding skip_field read_varint
skipped = refl

given : All (λ f. NormalValue numbers f (lookup f.name filled)) (level ∷ labels ∷ [])
unfolding lookup ◌=ᵇ◌ kind_of kind_at
given = (
  (refl, (refl, normal_sint32 0xFFFFFFFE (omega arith))),
  (
    (
      refl,
      (
        (refl, normal_string (lit "a") (omega arith)),
        ((refl, normal_string (lit "b") (omega arith)), tt),
      ),
    ),
    tt,
  ),
)

differ : (a b : Bytes) → (a =ᵇ b) ≡ false → a ≢ b
differ a b apart e = let yes : (a =ᵇ b) ≡ true = (=ᵇ_iff a b).1 e in absurd (ground arith)

pub extra-IsFresh : IsFresh (lit "extra") (level ∷ labels ∷ [])
unfolding ◌=ᵇ◌
extra-IsFresh =
    (differ (lit "level") (lit "extra") refl, (differ (lit "labels") (lit "extra") refl, tt))

message_example :
    (body : Bytes) × (out : List (Bytes × Any)) × (encode_proto numbers report filled ≡ ok body)
    × (decode_proto numbers report body ≡ some (ok out))
    × All (λ f. lookup f.name out ≡ kept (lookup f.name filled)) (level ∷ labels ∷ [])
    × (lookup (lit "extra") out ≡ none)
message_example =
    decode_proto-encode_proto numbers (lit "report") (level ∷ labels ∷ []) report filled
      (lit "extra") report_built given extra-IsFresh

abbrev five : List (Bytes × Any)
five = (lit "level", one (int64_val 5)) ∷ []

-- A field of level, and one of a number that the schema does not have.
five_read : decode_proto numbers report (16 ∷ 10 ∷ 24 ∷ 1 ∷ []) ≡ some (ok five)
unfolding decode_proto decode_loop known_field decode_field decode_value wire_type_for kind_of
    kind_wire_type decode_kind read_varint store lookup insert ◌=ᵇ◌ unzigzag32 skip_field
five_read = refl

typed_example :
    All (λ f. IsValueOf f (lookup f.name five)) (level ∷ labels ∷ [])
    × (lookup (lit "extra") five ≡ none)
typed_example =
    decode_proto-IsValueOf numbers (lit "report") (level ∷ labels ∷ []) report
      (16 ∷ 10 ∷ 24 ∷ 1 ∷ []) (lit "extra") five report_built extra-IsFresh five_read
