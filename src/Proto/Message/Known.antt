-- ===== src/Proto/Message/Known.antt =====
-- The fields of a schema that NewSchema made, as the decoder finds them.
use native.Mathlib.Nat.{add-zero}
use esphome_mpubsub.Base.{ℕ, ◌+◌, ◌<◌, ◌≡◌, ◌≢◌, ap, ◌∙◌, sym, arith}
use esphome_mpubsub.Base.{List, [], ◌∷◌, Bytes, length, All, some, get_elem?}
use esphome_mpubsub.Base.Maps.{nat_eq, bytes_eq, lookup}
use esphome_mpubsub.Schema.{Schema, SchemaField}
use esphome_mpubsub.Schema.Tables.{IsField, IsSchema, Visits, Visits-next}
use esphome_mpubsub.Proto.Decode.{known_field}
use esphome_mpubsub.Proto.Message.{}
use esphome_mpubsub.Proto.Message.Decoding.{IsKnown}
use esphome_mpubsub.Proto.Message.Stored.{IsFresh, IsDistinct}

module _ (id : Bytes) (all : List SchemaField) (s : Schema) (schema : IsSchema id all s) where
  found_name :
      (j k : ℕ) (f g : SchemaField)
      → j < k
      → k < length all
      → get_elem? all j ≡ some f
      → get_elem? all k ≡ some g
      → g.name ≢ f.name
  found_name j k f g lt hi e e' same =
      let here = schema.table.name_found j f (omega arith) e in
      let there = schema.table.name_found k g hi e' in
      let both : some j ≡ some k =
        sym here ∙ ap (λ (n : Bytes). lookup n s.by_name) (sym same) ∙ there in
      absurd (ground arith)

  later_name-IsFresh :
      (i k : ℕ) (f : SchemaField) (fs : List SchemaField)
      → get_elem? all i ≡ some f
      → i < k
      → k + length fs ≡ length all
      → Visits all k fs
      → IsFresh f.name fs
  later_name-IsFresh i k f [] e lt n v = tt
  later_name-IsFresh i k f (g ∷ gs) e lt n v = (
    found_name i k f g lt (omega arith) e (rw (add-zero k) at (v 0)),
    later_name-IsFresh i (k + 1) f gs e (omega arith) (omega arith) (Visits-next all k g gs v),
  )

  pub names-IsDistinct :
      (i : ℕ) (fs : List SchemaField) → i + length fs ≡ length all → Visits all i fs → IsDistinct fs
  names-IsDistinct i [] n v = tt
  names-IsDistinct i (f ∷ fs) n v = (
    later_name-IsFresh i (i + 1) f fs (rw (add-zero i) at (v 0)) (omega arith) (omega arith)
        (Visits-next all i f fs v),
    names-IsDistinct (i + 1) fs (omega arith) (Visits-next all i f fs v),
  )

  pub fields-IsKnown :
      (i : ℕ) (fs : List SchemaField)
      → i + length fs ≡ length all
      → Visits all i fs
      → All IsField fs
      → All (IsKnown s) fs
  unfolding known_field
  fields-IsKnown i [] n v h = tt
  fields-IsKnown i (f ∷ fs) n v (valid, h) =
      let here : get_elem? all i ≡ some f = rw (add-zero i) at (v 0) in
      let found = schema.table.tag_found i f (omega arith) here in
      (
        (
          valid.high,
          rw (known_field, found)
              (ap (λ (l : List SchemaField). get_elem? l i) schema.same_fields ∙ here),
        ),
        fields-IsKnown (i + 1) fs (omega arith) (Visits-next all i f fs v) h,
      )
