-- ===== src/Proto/Message/Accepted.antt =====
-- Whatever EncodeProto accepts, as DecodeProto reads it back.
use esphome_mpubsub.Base.{ℕ, ◌≡◌, ap, sym, ◌∙◌, arith, Bool-cases, inl, inr}
use esphome_mpubsub.Base.{
  List, [], ◌∷◌, Bytes, All, Option, none, some, Result, ok, err, Result-cases,
}
use esphome_mpubsub.Base.Maps.{bytes_eq, lookup}
use esphome_mpubsub.Schema.{Schema, SchemaField, kind_of, new_schema}
use esphome_mpubsub.Schema.Tables.{IsField, new_schema-IsSchema}
use esphome_mpubsub.Proto.Varint.{append_tag}
use esphome_mpubsub.Proto.Value.{
  Scalar, Any, one, many, Floats, ProtoError, kind_wire_type, append_value,
}
use esphome_mpubsub.Proto.Value.Accepted.{IsFloats, IsGo, append_value-IsTaken, append_value_list}
use esphome_mpubsub.Proto.Encode.{
  wrap, encode_elems, encode_fields, encode_proto, encode_repeated, encode_field,
}
use esphome_mpubsub.Proto.Decode.{decode_proto}
use esphome_mpubsub.Proto.Message.{
  kind_at, kind_at_typed, TakenEntry, TakenValue, given, kept, settle_any,
}
use esphome_mpubsub.Proto.Message.Encoding.{branch, encode_present-typed}
use esphome_mpubsub.Proto.Message.Settled.{encode-decode_taken}
use esphome_mpubsub.Proto.Message.Stored.{IsFresh}

-- The values that a Go program can hold.
abbrev pub IsGoAny : Option Any → Type 0
IsGoAny none = Unit {0}
IsGoAny (some (one x)) = IsGo x
IsGoAny (some (many xs)) = All IsGo xs

module _ (fl : Floats) (lawful : IsFloats fl) where
  wrap_ok :
      (name : Bytes) (r : Result ProtoError Bytes) (out : Bytes) → wrap name r ≡ ok out → r ≡ ok out
  wrap_ok name (ok b) out e = e
  wrap_ok name (err x) out e = cc

  encode_elems-TakenEntry :
      (f : SchemaField) (wt : ℕ) (xs : List Scalar) (buf out : Bytes)
      → kind_of f.typ ≡ some (kind_at f)
      → All IsGo xs
      → encode_elems fl f wt xs buf ≡ ok out
      → All (TakenEntry fl f) xs
  unfolding encode_elems
  encode_elems-TakenEntry f wt [] buf out typed go e = tt
  encode_elems-TakenEntry f wt (x ∷ xs) buf out typed (go, gos) e =
      elim (Result-cases (append_value fl (append_tag buf f.tag wt) f.typ (one x))) [
        | inl (b, wrote) ↦ (
          (
            typed,
            append_value-IsTaken fl lawful (append_tag buf f.tag wt) f.typ b (kind_at f) x go typed
                wrote,
          ),
          encode_elems-TakenEntry f wt xs b out typed gos (ground arith),
        )
        | inr (z, bad) ↦ absurd (ground arith)
      ]

  branch-TakenValue :
      (f : SchemaField) (v : Any) (buf out : Bytes)
      → kind_of f.typ ≡ some (kind_at f)
      → IsGoAny (some v)
      → branch fl f v buf f.repeated ≡ ok out
      → TakenValue fl f (some v)
  unfolding encode_repeated
  branch-TakenValue f (one x) buf out typed go e = elim (Bool-cases f.repeated) [
    | inl rep ↦ absurd (ground arith)
    | inr flat ↦
        let wt = kind_wire_type (kind_at f) in
        let wrote =
          wrap_ok f.name (append_value fl (append_tag buf f.tag wt) f.typ (one x)) out
            (ground arith) in
        (
          flat,
          (
            typed,
            append_value-IsTaken fl lawful (append_tag buf f.tag wt) f.typ out (kind_at f) x go
                typed wrote,
          ),
        )
  ]
  branch-TakenValue f (many xs) buf out typed go e = elim (Bool-cases f.repeated) [
    | inl rep ↦ (
      rep,
      encode_elems-TakenEntry f (kind_wire_type (kind_at f)) xs buf out typed go (ground arith),
    )
    | inr flat ↦
        let wt = kind_wire_type (kind_at f) in
        let wrote =
          wrap_ok f.name (append_value fl (append_tag buf f.tag wt) f.typ (many xs)) out
            (ground arith) in
        absurd (append_value_list fl (append_tag buf f.tag wt) f.typ out xs wrote)
  ]

  encode_field-TakenValue :
      (f : SchemaField) (v : Option Any) (buf out : Bytes)
      → IsField f
      → IsGoAny v
      → encode_field fl f v buf ≡ ok out
      → TakenValue fl f v
  unfolding encode_field
  encode_field-TakenValue f none buf out valid go e = tt
  encode_field-TakenValue f (some v) buf out valid go e =
      let typed = kind_at_typed f valid in
      branch-TakenValue f v buf out typed go (sym (encode_present-typed fl f v buf typed) ∙ e)

  pub encode_fields-TakenValue :
      (fs : List SchemaField) (values : List (Bytes × Any)) (buf out : Bytes)
      → All IsField fs
      → All (λ f. IsGoAny (given values f)) fs
      → encode_fields fl fs values buf ≡ ok out
      → All (λ f. TakenValue fl f (given values f)) fs
  unfolding encode_fields
  encode_fields-TakenValue [] values buf out valid go e = tt
  encode_fields-TakenValue (f ∷ fs) values buf out (valid, vs) (go, gos) e =
      elim (Result-cases (encode_field fl f (given values f) buf)) [
        | inl (b, wrote) ↦ (
          encode_field-TakenValue f (given values f) buf b valid go wrote,
          encode_fields-TakenValue fs values b out vs gos (ground arith),
        )
        | inr (x, bad) ↦ absurd (ground arith)
      ]

  -- Whatever EncodeProto accepts, in a schema that NewSchema made, DecodeProto reads back: each
  -- field that was given holds what its type makes of the value (a number is coerced, and the 32-bit
  -- types keep its low 32 bits), a field that was not given or had an empty list is absent, and so
  -- is every name of no field.
  pub decode_proto-encode_proto_taken :
      (id : Bytes) (fields : List SchemaField) (s : Schema) (values : List (Bytes × Any))
      (name body : Bytes)
      → new_schema id fields ≡ ok s
      → All (λ f. IsGoAny (given values f)) fields
      → IsFresh name fields
      → encode_proto fl s values ≡ ok body
      → (out : List (Bytes × Any)) × (decode_proto fl s body ≡ some (ok out))
        × All (λ f. lookup f.name out ≡ kept (settle_any fl f (given values f))) fields
        × (lookup name out ≡ none)
  unfolding encode_proto
  decode_proto-encode_proto_taken id fields s values name body made go fresh e =
      let schema = new_schema-IsSchema id fields s made in
      let e' =
        ap (λ (l : List SchemaField). encode_fields fl l values []) (sym schema.same_fields) ∙ e in
      let taken = encode_fields-TakenValue fields values [] body schema.valid go e' in
      let (body', out, wrote, reads, found, absent) =
        encode-decode_taken fl id fields s values name made taken fresh in
      let same : body' ≡ body = ground arith in (out, rw same at reads, found, absent)
