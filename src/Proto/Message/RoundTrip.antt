-- ===== src/Proto/Message/RoundTrip.antt =====
-- EncodeProto followed by DecodeProto, in a schema that NewSchema made.

use esphome_mpubsub.Base.{◌≡◌, refl, ap, ap₂, ◌∙◌}
use esphome_mpubsub.Base.{List, [], ◌∷◌, Bytes, All, Option, none, some, ok}
use esphome_mpubsub.Base.Maps.{nat_eq, bytes_eq, lookup}
use esphome_mpubsub.Schema.{Schema, SchemaField, new_schema}
use esphome_mpubsub.Proto.Value.{Scalar, Any, one, many, Floats}
use esphome_mpubsub.Proto.Value.Taken.{settle}
use esphome_mpubsub.Proto.Value.Accepted.{IsNormal-IsTaken}
use esphome_mpubsub.Proto.Encode.{encode_proto}
use esphome_mpubsub.Proto.Decode.{decode_proto}
use esphome_mpubsub.Proto.Message.{
  kind_at, TakenEntry, TakenValue, given, settle_each, settle_any, NormalEntry, NormalValue, kept,
}
use esphome_mpubsub.Proto.Message.Stored.{IsFresh}
use esphome_mpubsub.Proto.Message.Settled.{encode-decode_taken}

module _ (fl : Floats) where
  NormalEntry-TakenEntry :
      (f : SchemaField) (x : Scalar)
      → NormalEntry fl f x
      → TakenEntry fl f x × (settle fl (kind_at f) x ≡ x)
  NormalEntry-TakenEntry f x (e, h) =
      let (t, same) = IsNormal-IsTaken fl (kind_at f) x h in ((e, t), same)

  each_normal :
      (f : SchemaField) (xs : List Scalar)
      → All (NormalEntry fl f) xs
      → All (TakenEntry fl f) xs × (settle_each fl f xs ≡ xs)
  each_normal f [] h = (tt, refl)
  each_normal f (x ∷ xs) (h, hs) =
      let (t, same) = NormalEntry-TakenEntry f x h in
      let (ts, sames) = each_normal f xs hs in ((t, ts), ap₂ ◌∷◌ same sames)

  NormalValue-TakenValue :
      (f : SchemaField) (v : Option Any)
      → NormalValue fl f v
      → TakenValue fl f v × (settle_any fl f v ≡ v)
  NormalValue-TakenValue f none h = (tt, refl)
  NormalValue-TakenValue f (some (one x)) (flat, h) =
      let (t, same) = NormalEntry-TakenEntry f x h in
      ((flat, t), ap (λ (y : Scalar). some (one y)) same)
  NormalValue-TakenValue f (some (many xs)) (rep, h) =
      let (t, same) = each_normal f xs h in
      ((rep, t), ap (λ (ys : List Scalar). some (many ys)) same)

  all_normal :
      (fs : List SchemaField) (val : SchemaField → Option Any)
      → All (λ f. NormalValue fl f (val f)) fs
      → All (λ f. TakenValue fl f (val f)) fs
  all_normal [] val h = tt
  all_normal (f ∷ fs) val (h, hs) = ((NormalValue-TakenValue f (val f) h).0, all_normal fs val hs)

  all_found :
      (fs : List SchemaField) (val : SchemaField → Option Any) (out : List (Bytes × Any))
      → All (λ f. NormalValue fl f (val f)) fs
      → All (λ f. lookup f.name out ≡ kept (settle_any fl f (val f))) fs
      → All (λ f. lookup f.name out ≡ kept (val f)) fs
  all_found [] val out h e = tt
  all_found (f ∷ fs) val out (h, hs) (e, es) =
      (e ∙ ap kept (NormalValue-TakenValue f (val f) h).1, all_found fs val out hs es)

-- In a schema that NewSchema made, a message with a value of its type or none for each field is
-- encoded, and what is decoded from it has for each field the value that was given, and none for
-- any other name. A repeated field without elements comes back as none.
pub decode_proto-encode_proto :
    (fl : Floats) (id : Bytes) (fields : List SchemaField) (s : Schema)
    (values : List (Bytes × Any)) (name : Bytes)
    → new_schema id fields ≡ ok s
    → All (λ f. NormalValue fl f (lookup f.name values)) fields
    → IsFresh name fields
    → (body : Bytes) × (out : List (Bytes × Any)) × (encode_proto fl s values ≡ ok body)
      × (decode_proto fl s body ≡ some (ok out))
      × All (λ f. lookup f.name out ≡ kept (lookup f.name values)) fields
      × (lookup name out ≡ none)
decode_proto-encode_proto fl id fields s values name made normal fresh =
    let (body, out, wrote, reads, found, absent) =
      encode-decode_taken fl id fields s values name made
        (all_normal fl fields (given values) normal) fresh in
    (body, out, wrote, reads, all_found fl fields (given values) out normal found, absent)
