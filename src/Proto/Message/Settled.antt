-- ===== src/Proto/Message/Settled.antt =====
-- EncodeProto followed by DecodeProto on values that their types take.
use native.Mathlib.Nat.{zero-add}
use esphome_mpubsub.Base.{◌≡◌, refl, ap, ap₂, ◌∙◌, arith}
use esphome_mpubsub.Base.{
  List, [], ◌∷◌, ◌++◌, Bytes, length, All, All-append, Option, none, some, ok, get_elem?,
}
use esphome_mpubsub.Base.Maps.{nat_eq, bytes_eq, lookup}
use esphome_mpubsub.Schema.{Schema, SchemaField, new_schema}
use esphome_mpubsub.Schema.Tables.{new_schema-IsSchema, Visits}
use esphome_mpubsub.Proto.Value.{Scalar, Any, one, many, Floats}
use esphome_mpubsub.Proto.Value.Taken.{settle}
use esphome_mpubsub.Proto.Encode.{encode_proto, encode_fields}
use esphome_mpubsub.Proto.Decode.{decode_proto}
use esphome_mpubsub.Proto.Message.{
  kind_at, TakenEntry, TakenValue, given, settled, settle_each, settle_any, message_bytes,
  each_entry, entries_of, entries, kept,
}
use esphome_mpubsub.Proto.Message.Encoding.{encode_fields-bytes}
use esphome_mpubsub.Proto.Message.Decoding.{store_all, IsKnown, decode_loop-message}
use esphome_mpubsub.Proto.Message.Stored.{IsShaped, IsFresh, lookup-entries, lookup-entries_fresh}
use esphome_mpubsub.Proto.Message.Known.{names-IsDistinct, fields-IsKnown}

module _ (fl : Floats) (s : Schema) where
  abbrev Entry : SchemaField × Scalar → Type 0
  Entry e = IsKnown s e.0 × TakenEntry fl e.0 e.1

  each_known :
      (f : SchemaField) (xs : List Scalar)
      → IsKnown s f
      → All (TakenEntry fl f) xs
      → All Entry (each_entry f xs)
  each_known f [] k n = tt
  each_known f (x ∷ xs) k (n, ns) = ((k, n), each_known f xs k ns)

  entries_of_known :
      (f : SchemaField) (v : Option Any)
      → IsKnown s f
      → TakenValue fl f v
      → All Entry (entries_of f v)
  entries_of_known f none k n = tt
  entries_of_known f (some (one sc)) k (flat, n) = ((k, n), tt)
  entries_of_known f (some (many xs)) k (rep, n) = each_known f xs k n

  entries-Entry :
      (fs : List SchemaField) (val : SchemaField → Option Any)
      → All (IsKnown s) fs
      → All (λ f. TakenValue fl f (val f)) fs
      → All Entry (entries fs val)
  entries-Entry [] val k n = tt
  entries-Entry (f ∷ fs) val (k, ks) (n, ns) =
      All-append Entry (entries_of f (val f)) (entries fs val) (entries_of_known f (val f) k n)
        (entries-Entry fs val ks ns)

no_values : (fs : List SchemaField) → All (λ f. lookup {V = Any} f.name [] ≡ none) fs
unfolding lookup
no_values [] = tt
no_values (f ∷ fs) = (refl, no_values fs)

module _ (fl : Floats) where
  settled-append :
      (us bs : List (SchemaField × Scalar)) → settled fl (us ++ bs) ≡ settled fl us ++ settled fl bs
  settled-append [] bs = refl
  settled-append ((f, x) ∷ us) bs =
      ap (λ (t : List (SchemaField × Scalar)). (f, settle fl (kind_at f) x) ∷ t)
        (settled-append us bs)

  settled-each_entry :
      (f : SchemaField) (xs : List Scalar)
      → settled fl (each_entry f xs) ≡ each_entry f (settle_each fl f xs)
  settled-each_entry f [] = refl
  settled-each_entry f (x ∷ xs) =
      ap (λ (t : List (SchemaField × Scalar)). (f, settle fl (kind_at f) x) ∷ t)
        (settled-each_entry f xs)

  settled-entries_of :
      (f : SchemaField) (v : Option Any)
      → settled fl (entries_of f v) ≡ entries_of f (settle_any fl f v)
  settled-entries_of f none = refl
  settled-entries_of f (some (one x)) = refl
  settled-entries_of f (some (many xs)) = settled-each_entry f xs

  settled-entries :
      (fs : List SchemaField) (val : SchemaField → Option Any)
      → settled fl (entries fs val) ≡ entries fs (λ f. settle_any fl f (val f))
  settled-entries [] val = refl
  settled-entries (f ∷ fs) val =
      settled-append (entries_of f (val f)) (entries fs val)
      ∙ ap₂ ◌++◌ (settled-entries_of f (val f)) (settled-entries fs val)

  settle_any-IsShaped :
      (f : SchemaField) (v : Option Any) → TakenValue fl f v → IsShaped f (settle_any fl f v)
  settle_any-IsShaped f none h = tt
  settle_any-IsShaped f (some (one x)) (flat, h) = flat
  settle_any-IsShaped f (some (many xs)) (rep, h) = rep

  All-IsShaped :
      (fs : List SchemaField) (val : SchemaField → Option Any)
      → All (λ f. TakenValue fl f (val f)) fs
      → All (λ f. IsShaped f (settle_any fl f (val f))) fs
  All-IsShaped [] val h = tt
  All-IsShaped (f ∷ fs) val (h, hs) = (settle_any-IsShaped f (val f) h, All-IsShaped fs val hs)

  -- A message whose values their types take, in a schema that NewSchema made.
  pub encode-decode_taken :
      (id : Bytes) (fields : List SchemaField) (s : Schema) (values : List (Bytes × Any))
      (name : Bytes)
      → new_schema id fields ≡ ok s
      → All (λ f. TakenValue fl f (given values f)) fields
      → IsFresh name fields
      → (body : Bytes) × (out : List (Bytes × Any)) × (encode_proto fl s values ≡ ok body)
        × (decode_proto fl s body ≡ some (ok out))
        × All (λ f. lookup f.name out ≡ kept (settle_any fl f (given values f))) fields
        × (lookup name out ≡ none)
  unfolding encode_proto decode_proto lookup
  encode-decode_taken id fields s values name made taken fresh =
      let schema = new_schema-IsSchema id fields s made in
      let whole : Visits fields 0 fields = λ j. ap (get_elem? fields) (zero-add j) in
      let es = entries fields (given values) in
      let body = message_bytes fl es in
      let reader = λ (f : SchemaField). settle_any fl f (given values f) in
      let out = store_all (entries fields reader) [] in
      let known = fields-IsKnown id fields s schema 0 fields (omega arith) whole schema.valid in
      (
        body,
        out,
        ap (λ (l : List SchemaField). encode_fields fl l values []) schema.same_fields
            ∙ encode_fields-bytes fl fields values [] schema.valid taken,
        decode_loop-message fl s es (length body) 0 []
              (entries-Entry fl s fields (given values) known taken) (omega arith)
            ∙ ap (λ (t : List (SchemaField × Scalar)). some (ok (store_all t [])))
                (settled-entries fields (given values)),
        lookup-entries fields reader []
            (names-IsDistinct id fields s schema 0 fields (omega arith) whole)
            (All-IsShaped fields (given values) taken) (no_values fields),
        lookup-entries_fresh fields reader [] name fresh,
      )
