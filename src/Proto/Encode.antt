-- ===== src/Proto/Encode.antt =====
-- EncodeProto of proto.go.
use esphome_mpubsub.Base.{ℕ, if◌then◌else◌, List, [], ◌∷◌, Bytes}
use esphome_mpubsub.Base.{Option, none, some, Result, ok, err, ◌>>=◌}
use esphome_mpubsub.Base.Maps.{bytes_eq, lookup}
use esphome_mpubsub.Schema.{Schema, SchemaField}
use esphome_mpubsub.Proto.Varint.{append_tag}
use esphome_mpubsub.Proto.Value.{
  Scalar, Any, one, many, Floats, ProtoError, in_field, repeated_not_list,
}
use esphome_mpubsub.Proto.Value.{wire_type_for, append_value}

-- An error that is wrapped with the field's name.
abbrev pub wrap {ℓ} : {A : Type ℓ} → Bytes → Result ProtoError A → Result ProtoError A
wrap name (ok a) = ok a
wrap name (err e) = err (in_field name e)

module _ (fl : Floats) where
  -- The loop over the elements of a repeated field.
  unfoldable pub encode_elems : SchemaField → ℕ → List Scalar → Bytes → Result ProtoError Bytes
  encode_elems f wt [] buf = ok buf
  encode_elems f wt (x ∷ xs) buf = do
    buf' ← wrap f.name (append_value fl (append_tag buf f.tag wt) f.typ (one x))
    encode_elems f wt xs buf'

  unfoldable pub encode_repeated : SchemaField → ℕ → Any → Bytes → Result ProtoError Bytes
  encode_repeated f wt (one x) buf = err (repeated_not_list f.name)
  encode_repeated f wt (many xs) buf = encode_elems f wt xs buf

  -- A field whose value is present.
  unfoldable pub encode_present : SchemaField → Any → Bytes → Result ProtoError Bytes
  unfolding encode_repeated
  encode_present f v buf = do
    wt ← wire_type_for f.typ
    if f.repeated
        then encode_repeated f wt v buf
        else wrap f.name (append_value fl (append_tag buf f.tag wt) f.typ v)

  unfoldable pub encode_field : SchemaField → Option Any → Bytes → Result ProtoError Bytes
  encode_field f none buf = ok buf
  encode_field f (some v) buf = encode_present f v buf

  unfoldable pub encode_fields :
      List SchemaField → List (Bytes × Any) → Bytes → Result ProtoError Bytes
  unfolding encode_field
  encode_fields [] values buf = ok buf
  encode_fields (f ∷ fs) values buf = do
    buf' ← encode_field f (lookup f.name values) buf
    encode_fields fs values buf'

  unfoldable pub encode_proto : Schema → List (Bytes × Any) → Result ProtoError Bytes
  encode_proto s values = encode_fields s.fields values []
