-- ===== src/Proto/Message/Encoding.antt =====
-- What EncodeProto makes of a message whose values have their fields' types.
use esphome_mpubsub.Base.{◌≤◌, ◌≡◌, refl, ap, sym, ◌∙◌, Bool, if◌then◌else◌}
use esphome_mpubsub.Base.{
  List, [], ◌∷◌, ◌++◌, Bytes, All, Option, none, some, Result, ok, append_assoc, append-nil,
}
use esphome_mpubsub.Base.Maps.{bytes_eq, lookup}
use esphome_mpubsub.Schema.{SchemaField, kind_of}
use esphome_mpubsub.Schema.Tables.{IsField}
use esphome_mpubsub.Proto.Varint.{append_tag}
use esphome_mpubsub.Proto.Varint.Groups.{groups}
use esphome_mpubsub.Proto.Value.{
  Scalar, Any, one, many, Floats, ProtoError, kind_wire_type, wire_type_for, append_value,
}
use esphome_mpubsub.Proto.Value.Taken.{sent_bytes, decode_value-sent_bytes}
use esphome_mpubsub.Proto.Encode.{
  wrap, encode_elems, encode_present, encode_fields, encode_repeated, encode_field,
}
use esphome_mpubsub.Proto.Message.{
  kind_at, kind_at_typed, key_of, entry_bytes, message_bytes, TakenEntry, TakenValue, each_entry,
}
use esphome_mpubsub.Proto.Message.{
  entries_of, given, entries, append_tag-groups, message_bytes-append,
}

wire_type_for-typed :
    (f : SchemaField)
    → kind_of f.typ ≡ some (kind_at f)
    → wire_type_for f.typ ≡ ok (kind_wire_type (kind_at f))
unfolding wire_type_for
wire_type_for-typed f e = rw (wire_type_for, e) refl

module _ (fl : Floats) where
  append_entry :
      (buf : Bytes) (f : SchemaField) (sc : Scalar)
      → f.tag ≤ 536870911
      → TakenEntry fl f sc
      → append_value fl (append_tag buf f.tag (kind_wire_type (kind_at f))) f.typ (one sc)
        ≡ ok (buf ++ entry_bytes fl f sc)
  append_entry buf f sc h (typed, normal) = rw (append_tag-groups buf f h) (
      (decode_value-sent_bytes fl (buf ++ groups 9 (key_of f)) [] f.typ (kind_at f) sc typed
        normal).0
      ∙ ap ok (append_assoc buf (groups 9 (key_of f)) (sent_bytes fl (kind_at f) sc)))

  encode_elems-bytes :
      (f : SchemaField) (xs : List Scalar) (buf : Bytes)
      → f.tag ≤ 536870911
      → All (TakenEntry fl f) xs
      → encode_elems fl f (kind_wire_type (kind_at f)) xs buf
        ≡ ok (buf ++ message_bytes fl (each_entry f xs))
  unfolding encode_elems
  encode_elems-bytes f [] buf h n = ap ok (sym (append-nil buf))
  encode_elems-bytes f (x ∷ xs) buf h (n, ns) = rw (append_entry buf f x h n) (
      encode_elems-bytes f xs (buf ++ entry_bytes fl f x) h ns
      ∙ ap ok (append_assoc buf (entry_bytes fl f x) (message_bytes fl (each_entry f xs))))

  abbrev pub branch : SchemaField → Any → Bytes → Bool → Result ProtoError Bytes
  branch f v buf repeated =
      let wt = kind_wire_type (kind_at f) in
      if repeated
      then encode_repeated fl f wt v buf
      else wrap f.name (append_value fl (append_tag buf f.tag wt) f.typ v)

  pub encode_present-typed :
      (f : SchemaField) (v : Any) (buf : Bytes)
      → kind_of f.typ ≡ some (kind_at f)
      → encode_present fl f v buf ≡ branch f v buf f.repeated
  unfolding encode_present
  encode_present-typed f v buf e = rw (encode_present, wire_type_for-typed f e) refl

  encode_field-bytes :
      (f : SchemaField) (v : Option Any) (buf : Bytes)
      → IsField f
      → TakenValue fl f v
      → encode_field fl f v buf ≡ ok (buf ++ message_bytes fl (entries_of f v))
  unfolding encode_field encode_present encode_repeated
  encode_field-bytes f none buf h n = ap ok (sym (append-nil buf))
  encode_field-bytes f (some (one sc)) buf h (flat, (typed, normal)) =
      encode_present-typed f (one sc) buf typed
      ∙ ap (λ (b : Bool). branch f (one sc) buf b) flat
      ∙ rw (append_entry buf f sc h.high (typed, normal))
          (ap ok (ap (λ (t : Bytes). buf ++ t) (sym (append-nil (entry_bytes fl f sc)))))
  encode_field-bytes f (some (many xs)) buf h (rep, ns) =
      encode_present-typed f (many xs) buf (kind_at_typed f h)
      ∙ ap (λ (b : Bool). branch f (many xs) buf b) rep
      ∙ encode_elems-bytes f xs buf h.high ns

  pub encode_fields-bytes :
      (fs : List SchemaField) (values : List (Bytes × Any)) (buf : Bytes)
      → All IsField fs
      → All (λ f. TakenValue fl f (lookup f.name values)) fs
      → encode_fields fl fs values buf ≡ ok (buf ++ message_bytes fl (entries fs (given values)))
  unfolding encode_fields
  encode_fields-bytes [] values buf h n = ap ok (sym (append-nil buf))
  encode_fields-bytes (f ∷ fs) values buf (h, hs) (n, ns) =
      rw (encode_field-bytes f (lookup f.name values) buf h n) (
        encode_fields-bytes fs values
          (buf ++ message_bytes fl (entries_of f (lookup f.name values))) hs ns
        ∙ ap ok (
            append_assoc buf (message_bytes fl (entries_of f (lookup f.name values)))
              (message_bytes fl (entries fs (given values)))
            ∙ ap (λ (t : Bytes). buf ++ t)
                (sym (
                  message_bytes-append fl (entries_of f (lookup f.name values))
                    (entries fs (given values))))))
