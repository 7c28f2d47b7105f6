-- ===== src/Json.antt =====
-- bridges/mqtt-go/json_proto.go: JSON objects to protobuf bodies and back. encoding/json and
-- encoding/base64 are parameters.
pub mod Prepared
pub mod Translation
pub mod Coerced
pub mod RoundTrip
pub mod Keys
use esphome_mpubsub.Base.{ℕ, ◌+◌, Bool, true, false, if◌then◌else◌}
use esphome_mpubsub.Base.{
  List, [], ◌∷◌, map, Bytes, lit, ◌=ᵇ◌, get_elem?, Option, none, some, Result, ok, err, ◌>>=◌,
}
use esphome_mpubsub.Base.Maps.{bytes_eq, lookup}
use esphome_mpubsub.Schema.{Schema, SchemaField}
use esphome_mpubsub.Proto.Value.{Scalar, string_val, bytes_val, Any, one, many, Floats, ProtoError}
use esphome_mpubsub.Proto.Encode.{encode_proto}
use esphome_mpubsub.Proto.Decode.{decode_proto}

-- json.Unmarshal into a map[string]any, json.Marshal of one, and base64.StdEncoding. `none` is an
-- error.
pub record JsonLib : Type 0 where
  pub unmarshal : Bytes → Option (List (Bytes × Any))
  pub marshal : List (Bytes × Any) → Option Bytes
  pub decode_base64 : Bytes → Option Bytes
  pub encode_base64 : Bytes → Bytes

pub data JsonError : Type 0 where
  unparsable_json : Bytes → JsonError
  unknown_field : Bytes → Bytes → JsonError
  in_json_field : Bytes → JsonError → JsonError
  not_array : Any → JsonError
  in_element : ℕ → JsonError → JsonError
  not_base64_text : Any → JsonError
  bad_base64 : Bytes → JsonError
  in_proto : ProtoError → JsonError
  unprintable : JsonError

abbrev pub in_field_named {ℓ} : {A : Type ℓ} → Bytes → Result JsonError A → Result JsonError A
in_field_named name (ok a) = ok a
in_field_named name (err e) = err (in_json_field name e)

abbrev pub at_element {ℓ} : {A : Type ℓ} → ℕ → Result JsonError A → Result JsonError A
at_element i (ok a) = ok a
at_element i (err e) = err (in_element i e)

abbrev pub from_proto {ℓ} : {A : Type ℓ} → Result ProtoError A → Result JsonError A
from_proto (ok a) = ok a
from_proto (err e) = err (in_proto e)

abbrev pub is_bytes : Bytes → Bool
is_bytes typ = typ =ᵇ lit "bytes"

abbrev no_field : SchemaField
no_field = record { name = []; typ = []; tag = 0; repeated = false }

-- `s.Fields[s.byName[k]]`: a missing key leads to index 0. Every index is in range in a schema that
-- NewSchema made, which has a field.
abbrev pub field_or_none : Option SchemaField → SchemaField
field_or_none none = no_field
field_or_none (some f) = f

abbrev pub index_or_zero : Option ℕ → ℕ
index_or_zero none = 0
index_or_zero (some i) = i

unfoldable pub field_at : Schema → Bytes → SchemaField
field_at s k = field_or_none (get_elem? s.fields (index_or_zero (lookup k s.by_name)))

module _ (lib : JsonLib) where
  -- jsonScalarToGo for a type of bytes.
  unfoldable pub base64_to_go : Scalar → Result JsonError Scalar
  base64_to_go (string_val s) = elim (lib.decode_base64 s) [
    | none ↦ err (bad_base64 s)
    | some b ↦ ok (bytes_val b)
  ]
  base64_to_go v = err (not_base64_text (one v))

  unfoldable pub json_scalar_to_go : Bytes → Scalar → Result JsonError Scalar
  json_scalar_to_go typ v = if is_bytes typ then base64_to_go v else ok v

  -- The loop over the elements of an array, at index `i`.
  unfoldable pub json_elements : Bytes → ℕ → List Scalar → Result JsonError (List Scalar)
  json_elements typ i [] = ok []
  json_elements typ i (x ∷ xs) = do
    c ← at_element i (json_scalar_to_go typ x)
    rest ← json_elements typ (i + 1) xs
    ok (c ∷ rest)

  unfoldable pub json_repeated : Bytes → Any → Result JsonError Any
  json_repeated typ (one x) = err (not_array (one x))
  json_repeated typ (many xs) = do out ← json_elements typ 0 xs; ok (many out)

  -- jsonScalarToGo of a value that may be an array, which no type of bytes takes.
  unfoldable pub json_single : Bytes → Any → Result JsonError Any
  json_single typ (one x) = do c ← json_scalar_to_go typ x; ok (one c)
  json_single typ (many xs) = if is_bytes typ then err (not_base64_text (many xs)) else ok (many xs)

  unfoldable pub json_value_to_go : SchemaField → Any → Result JsonError Any
  json_value_to_go f v = if f.repeated then json_repeated f.typ v else json_single f.typ v

  -- The loop that validates the keys, in the order that Go picks.
  unfoldable pub check_keys : Schema → List (Bytes × Any) → Result JsonError (Unit {0})
  check_keys s [] = ok tt
  check_keys s ((k, v) ∷ rest) =
      let next = check_keys s rest in
      elim (lookup k s.by_name) [ none ↦ err (unknown_field s.id k) | some i ↦ next ]

  -- The loop that coerces the values; a key of `raw` occurs once.
  unfoldable pub prepare : Schema → List (Bytes × Any) → Result JsonError (List (Bytes × Any))
  prepare s [] = ok []
  prepare s ((k, v) ∷ rest) = do
    coerced ← in_field_named k (json_value_to_go (field_at s k) v)
    prepared ← prepare s rest
    ok ((k, coerced) ∷ prepared)

  abbrev pub parsed_object :
      Bytes → Option (List (Bytes × Any)) → Result JsonError (List (Bytes × Any))
  parsed_object body none = err (unparsable_json body)
  parsed_object body (some raw) = ok raw

  unfoldable pub json_to_proto : Floats → Schema → Bytes → Result JsonError Bytes
  json_to_proto fl s body = do
    raw ← parsed_object body (lib.unmarshal body)
    _ ← check_keys s raw
    prepared ← prepare s raw
    from_proto (encode_proto fl s prepared)

  unfoldable pub bytes_to_json : Scalar → Scalar
  bytes_to_json (bytes_val b) = string_val (lib.encode_base64 b)
  bytes_to_json v = v

  unfoldable pub go_scalar_to_json : Bytes → Scalar → Scalar
  unfolding bytes_to_json
  go_scalar_to_json typ v = if is_bytes typ then bytes_to_json v else v

  unfoldable pub go_value_to_json : SchemaField → Any → Any
  go_value_to_json f (one x) = if f.repeated then one x else one (go_scalar_to_json f.typ x)
  go_value_to_json f (many xs) =
      if f.repeated then many (map (go_scalar_to_json f.typ) xs) else many xs

  -- The loop that rewrites the values in place.
  unfoldable pub to_json_values : Schema → List (Bytes × Any) → List (Bytes × Any)
  to_json_values s [] = []
  to_json_values s ((k, v) ∷ rest) = (k, go_value_to_json (field_at s k) v) ∷ to_json_values s rest

  abbrev pub printed : Option Bytes → Result JsonError Bytes
  printed none = err unprintable
  printed (some b) = ok b

  -- `none` is no result of the program: the fuel of DecodeProto is used up.
  unfoldable pub proto_to_json : Floats → Schema → Bytes → Option (Result JsonError Bytes)
  proto_to_json fl s body = elim (decode_proto fl s body) [
    | none ↦ none
    | some (err e) ↦ some (err (in_proto e))
    | some (ok values) ↦ some (printed (lib.marshal (to_json_values s values)))
  ]
