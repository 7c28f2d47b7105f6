-- ===== src/Json/RoundTrip.antt =====
-- JSONToProto and ProtoToJSON in a row.
use mathlib.Core.Path.{subst}
use esphome_mpubsub.Base.{◌≡◌, refl, ap, sym, ◌∙◌, arith}
use esphome_mpubsub.Base.{
  List, [], ◌∷◌, Bytes, All, get_elem?, none, some, ok, bind_ok, ok-injective, err, Result,
}
use esphome_mpubsub.Base.Maps.{bytes_eq, lookup}
use esphome_mpubsub.Schema.{Schema, SchemaField, new_schema}
use native.Mathlib.Nat.{zero-add}
use esphome_mpubsub.Schema.Tables.{Visits, new_schema-IsSchema}
use esphome_mpubsub.Proto.Value.{ProtoError, Any, Floats}
use esphome_mpubsub.Proto.Value.Accepted.{IsFloats}
use esphome_mpubsub.Proto.Encode.{encode_proto, encode_fields}
use esphome_mpubsub.Proto.Message.{TakenValue, given, kept, settle_any}
use esphome_mpubsub.Proto.Message.Stored.{IsFresh}
use esphome_mpubsub.Proto.Message.Accepted.{
  IsGoAny, decode_proto-encode_proto_taken, encode_fields-TakenValue,
}
use esphome_mpubsub.Json.{
  from_proto, JsonLib, field_at, check_keys, prepare, json_to_proto, go_value_to_json,
  to_json_values, proto_to_json, printed,
}
use esphome_mpubsub.Json.Prepared.{
  map_option, IsPrepared, field_at_name, prepare-IsPrepared, lookup-to_json_values,
}
use esphome_mpubsub.Json.Translation.{translated, value_back}
use esphome_mpubsub.Json.Coerced.{IsShrinking, prepared-IsGo}

module _ (fl : Floats) (lib : JsonLib) (s : Schema) (raw prepared : List (Bytes × Any))
    (e : prepare lib s raw ≡ ok prepared) where
  -- The field of a key is the one that its name leads to.
  IsPrepared-at :
      (f : SchemaField)
      → field_at s f.name ≡ f
      → IsPrepared lib f (lookup f.name raw) (lookup f.name prepared)
  IsPrepared-at f found =
      subst (λ (g : SchemaField). IsPrepared lib g (lookup f.name raw) (lookup f.name prepared))
        found (prepare-IsPrepared lib s raw prepared f.name e)

  prepared-AllGo :
      (fs : List SchemaField)
      → IsShrinking lib.decode_base64
      → All (λ f. field_at s f.name ≡ f) fs
      → All (λ f. IsGoAny (given raw f)) fs
      → All (λ f. IsGoAny (given prepared f)) fs
  prepared-AllGo [] shrinks found go = tt
  prepared-AllGo (f ∷ fs) shrinks (found, founds) (go, gos) = (
    prepared-IsGo lib shrinks f (lookup f.name raw) (lookup f.name prepared) go
        (IsPrepared-at f found),
    prepared-AllGo fs shrinks founds gos,
  )

  shown_at :
      (f : SchemaField) (out : List (Bytes × Any))
      → field_at s f.name ≡ f
      → TakenValue fl f (given prepared f)
      → lookup f.name out ≡ kept (settle_any fl f (given prepared f))
      → lookup f.name (to_json_values lib s out) ≡ translated fl lib f (lookup f.name raw)
  shown_at f out found taken read =
      lookup-to_json_values lib s out f.name
      ∙ ap (λ (g : SchemaField). map_option (go_value_to_json lib g) (lookup f.name out)) found
      ∙ ap (map_option (go_value_to_json lib f)) read
      ∙ value_back fl lib f (lookup f.name raw) (lookup f.name prepared) (IsPrepared-at f found)
          taken

  shown_each :
      (fs : List SchemaField) (out : List (Bytes × Any))
      → All (λ f. field_at s f.name ≡ f) fs
      → All (λ f. TakenValue fl f (given prepared f)) fs
      → All (λ f. lookup f.name out ≡ kept (settle_any fl f (given prepared f))) fs
      → All
          (λ f. lookup f.name (to_json_values lib s out) ≡ translated fl lib f (lookup f.name raw))
          fs
  shown_each [] out found taken read = tt
  shown_each (f ∷ fs) out (found, founds) (taken, takens) (read, reads) =
      (shown_at f out found taken read, shown_each fs out founds takens reads)

from_proto_ok : (r : Result ProtoError Bytes) (b : Bytes) → from_proto r ≡ ok b → r ≡ ok b
from_proto_ok (ok x) b e = ap ok (ok-injective e)
from_proto_ok (err x) b e = cc

module _ (fl : Floats) (lib : JsonLib) where
  -- The steps of a translation that succeeds.
  json_to_proto_steps :
      (s : Schema) (body proto : Bytes) (raw : List (Bytes × Any))
      → lib.unmarshal body ≡ some raw
      → json_to_proto lib fl s body ≡ ok proto
      → (prepared : List (Bytes × Any)) × (prepare lib s raw ≡ ok prepared)
        × (encode_proto fl s prepared ≡ ok proto)
  unfolding json_to_proto
  json_to_proto_steps s body proto raw parsed e =
      let start = rw (json_to_proto, parsed) at e in
      let (_, known, e1) = bind_ok (check_keys lib s raw) _ proto start in
      let (prepared, made, e2) = bind_ok (prepare lib s raw) _ proto e1 in
      (prepared, made, from_proto_ok (encode_proto fl s prepared) proto e2)

  -- In a schema that NewSchema made, what JSONToProto makes of an object is a body that ProtoToJSON
  -- reads: it marshals an object in which each field has what its type makes of the value it was
  -- given (a field of bytes, the base64 text of the same bytes; a number, coerced, of which the
  -- 32-bit types keep the low 32 bits), and is absent where it was not given or was an empty list.
  -- A name of no field is absent.
  pub proto_to_json-json_to_proto :
      (id : Bytes) (fields : List SchemaField) (s : Schema) (body proto name : Bytes)
      (raw : List (Bytes × Any))
      → IsFloats fl
      → IsShrinking lib.decode_base64
      → new_schema id fields ≡ ok s
      → IsFresh name fields
      → lib.unmarshal body ≡ some raw
      → All (λ f. IsGoAny (given raw f)) fields
      → json_to_proto lib fl s body ≡ ok proto
      → (values : List (Bytes × Any)) × (proto_to_json lib fl s proto
          ≡ some (printed lib (lib.marshal values)))
        × All (λ f. lookup f.name values ≡ translated fl lib f (lookup f.name raw)) fields
        × (lookup name values ≡ none)
  unfolding proto_to_json encode_proto
  proto_to_json-json_to_proto id fields s body proto name raw lawful shrinks made fresh parsed go
        e =
      let schema = new_schema-IsSchema id fields s made in
      let whole : Visits fields 0 fields = λ j. ap (get_elem? fields) (zero-add j) in
      let found = field_at_name id fields s schema 0 fields (omega arith) whole in
      let (prepared, made', wrote) = json_to_proto_steps s body proto raw parsed e in
      let gos = prepared-AllGo fl lib s raw prepared made' fields shrinks found go in
      let (out, reads, settled, absent) =
        decode_proto-encode_proto_taken fl lawful id fields s prepared name proto made gos fresh
          wrote in
      let wrote' =
        ap (λ (l : List SchemaField). encode_fields fl l prepared []) (sym schema.same_fields)
        ∙ wrote in
      let taken =
        encode_fields-TakenValue fl lawful fields prepared [] proto schema.valid gos wrote' in
      (
        to_json_values lib s out,
        rw (proto_to_json, reads) refl,
        shown_each fl lib s raw prepared made' fields out found taken settled,
        lookup-to_json_values lib s out name
            ∙ ap (map_option (go_value_to_json lib (field_at s name))) absent,
      )
