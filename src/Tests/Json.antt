-- ===== src/Tests/Json.antt =====
-- JSON objects at concrete inputs. A text stands for one object, and base64 text for its own bytes.
use esphome_mpubsub.Base.{
  ◌%◌, ◌^◌, ◌≡◌, ◌↔◌, refl, true, false, if◌then◌else◌, [], ◌∷◌, Bytes, List, All, some, none, ok,
  err, lit, arith, ◌=ᵇ◌,
}
use esphome_mpubsub.Base.Maps.{lookup, insert, bytes_eq}
use esphome_mpubsub.Schema.{kind_of}
use esphome_mpubsub.Proto.Value.{
  Any, one, many, Floats, string_val, float64_val, append_value, append_kind, to_int64,
  float_to_int64, kind_wire_type, wire_type_for,
}
use esphome_mpubsub.Proto.Varint.{append_tag, append_varint}
use esphome_mpubsub.Proto.Zigzag.{zigzag32}
use esphome_mpubsub.Proto.Value.Accepted.{IsFloats}
use esphome_mpubsub.Proto.Encode.{
  encode_proto, encode_fields, encode_field, encode_present, encode_repeated, encode_elems,
}
use esphome_mpubsub.Proto.Decode.{decode_proto}
use esphome_mpubsub.Proto.Message.{kept, settle_any}
use esphome_mpubsub.Proto.Message.Accepted.{IsGoAny, decode_proto-encode_proto_taken}
use esphome_mpubsub.Json.{
  JsonLib, json_to_proto, check_keys, prepare, field_at, json_value_to_go, json_repeated,
  json_single, json_elements, json_scalar_to_go, base64_to_go, unknown_field, proto_to_json,
  printed,
}
use esphome_mpubsub.Json.Coerced.{IsShrinking}
use esphome_mpubsub.Json.RoundTrip.{proto_to_json-json_to_proto}
use esphome_mpubsub.Json.Translation.{translated}
use esphome_mpubsub.Json.Keys.{first_unknown, json_to_proto_unknown}
use esphome_mpubsub.Tests.Messages.{level, labels, report, report_built, extra-IsFresh}

-- A float stands for a whole number.
abbrev pub words : Floats
words = record {
  is_whole = λ x. true;
  is_negative = λ x. false;
  to_i64 = λ x. x % 2 ^ 64;
  to_u64 = λ x. x % 2 ^ 64;
  of_i64 = λ x. x;
  of_u64 = λ x. x;
  narrow = λ x. x % 2 ^ 32;
  widen = λ x. x;
}

words-IsFloats : IsFloats words
words-IsFloats = record { i64 = λ x. omega arith; u64 = λ x. omega arith; f32 = λ x. omega arith }

abbrev pub object : List (Bytes × Any)
object =
    (lit "labels", many (string_val (lit "a") ∷ string_val (lit "b") ∷ []))
    ∷ (lit "level", one (float64_val 0x100000005))
    ∷ []

abbrev pub text : Bytes
text = lit "{}"

abbrev stray : Bytes
stray = lit "{?}"

abbrev pub lib : JsonLib
lib = record {
  unmarshal = λ b.
      if b =ᵇ text
      then some object
      else if b =ᵇ stray
      then some ((lit "lvl", one (float64_val 1)) ∷ object)
      else none;
  marshal = λ values. some (lit "{}");
  decode_base64 = λ t. some t;
  encode_base64 = λ b. b;
}

lib-IsShrinking : IsShrinking lib.decode_base64
lib-IsShrinking t b e = ground arith

parses : lib.unmarshal text ≡ some object
unfolding ◌=ᵇ◌
parses = refl

abbrev pub sent : Bytes
sent = 16 ∷ 10 ∷ 226 ∷ 18 ∷ 1 ∷ 97 ∷ 226 ∷ 18 ∷ 1 ∷ 98 ∷ []

pub translates : json_to_proto lib words report text ≡ ok sent
unfolding json_to_proto check_keys prepare field_at json_value_to_go json_repeated json_single
    json_elements json_scalar_to_go base64_to_go encode_proto encode_fields encode_field
    encode_present encode_repeated encode_elems append_value append_kind append_tag append_varint
    to_int64 float_to_int64 kind_of kind_wire_type wire_type_for lookup insert ◌=ᵇ◌ zigzag32
translates = refl

go_values : All (λ f. IsGoAny (lookup f.name object)) (level ∷ labels ∷ [])
unfolding lookup ◌=ᵇ◌
go_values = (tt, (((omega arith), ((omega arith), tt)), tt))

json_example :
    (values : List (Bytes × Any)) × (proto_to_json lib words report sent
      ≡ some (printed lib (lib.marshal values)))
    × All
        (λ f. lookup f.name values ≡ translated words lib f (lookup f.name object))
        (level ∷ labels ∷ [])
    × (lookup (lit "extra") values ≡ none)
json_example =
    proto_to_json-json_to_proto words lib (lit "report") (level ∷ labels ∷ []) report text sent
      (lit "extra") object words-IsFloats lib-IsShrinking report_built extra-IsFresh parses
      go_values translates

encodes : encode_proto words report object ≡ ok sent
unfolding encode_proto encode_fields encode_field encode_present encode_repeated encode_elems
    append_value append_kind append_tag append_varint to_int64 float_to_int64 kind_of kind_wire_type
    wire_type_for lookup insert ◌=ᵇ◌ zigzag32
encodes = refl

accepted_example :
    (out : List (Bytes × Any)) × (decode_proto words report sent ≡ some (ok out))
    × All
        (λ f. lookup f.name out ≡ kept (settle_any words f (lookup f.name object)))
        (level ∷ labels ∷ [])
    × (lookup (lit "extra") out ≡ none)
accepted_example =
    decode_proto-encode_proto_taken words words-IsFloats (lit "report") (level ∷ labels ∷ []) report
      object (lit "extra") sent report_built go_values extra-IsFresh encodes

stray_parses : lib.unmarshal stray ≡ some ((lit "lvl", one (float64_val 1)) ∷ object)
unfolding ◌=ᵇ◌
stray_parses = refl

unknown_example :
    (json_to_proto lib words report stray ≡ err (unknown_field report.id (lit "lvl"))) ↔ (
      first_unknown (level ∷ labels ∷ []) ((lit "lvl", one (float64_val 1)) ∷ object)
      ≡ some (lit "lvl"))
unknown_example =
    json_to_proto_unknown words lib (lit "report") (level ∷ labels ∷ []) report stray (lit "lvl")
      ((lit "lvl", one (float64_val 1)) ∷ object) report_built stray_parses
