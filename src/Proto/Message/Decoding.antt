-- ===== src/Proto/Message/Decoding.antt =====
-- The loop of DecodeProto on the bytes of a message whose fields the schema knows.
use esphome_mpubsub.Base.{ℕ, zero, suc, ◌+◌, ◌/◌, ◌%◌, ◌^◌, ◌≤◌, ◌≡◌, refl, ◌∙◌, arith, bit_and}
use esphome_mpubsub.Base.{List, [], ◌∷◌, ◌++◌, Bytes, length, drop, All, some, ok, append_assoc}
use esphome_mpubsub.Base.{length-append, drop-append_length}
use esphome_mpubsub.Base.Bits.{bit_and_mask}
use esphome_mpubsub.Schema.{Schema, SchemaField}
use esphome_mpubsub.Proto.Varint.Groups.{groups, length-groups}
use esphome_mpubsub.Proto.Varint.Reading.{read_varint-groups}
use esphome_mpubsub.Proto.Value.{Scalar, Any, Floats, kind_wire_type}
use esphome_mpubsub.Proto.Value.Taken.{settle, sent_bytes, decode_value-sent_bytes}
use esphome_mpubsub.Proto.Decode.{store, known_field, decode_field, decode_loop}
use esphome_mpubsub.Proto.Decode.Total.{decode_loop_round, decode_loop_end}
use esphome_mpubsub.Proto.Message.{
  settled, kind_at, key_of, entry_bytes, message_bytes, TakenEntry, kind_wire_type-lt,
}

-- All values of a message in the order of its bytes.
abbrev pub store_all : List (SchemaField × Scalar) → List (Bytes × Any) → List (Bytes × Any)
store_all [] out = out
store_all ((f, sc) ∷ es) out = store_all es (store f sc out)

-- A field that the schema finds at its tag.
abbrev pub IsKnown : Schema → SchemaField → Type 0
IsKnown s f = (f.tag ≤ 536870911) × (known_field s f.tag ≡ some f)

key_field : (f : SchemaField) → f.tag ≤ 536870911 → key_of f / 2 ^ 3 % 2 ^ 32 ≡ f.tag
key_field f h = omega (arith, kind_wire_type-lt (kind_at f))

key_type : (f : SchemaField) → bit_and (key_of f) 0x7 ≡ kind_wire_type (kind_at f)
key_type f = bit_and_mask 3 (key_of f) ∙ omega (arith, kind_wire_type-lt (kind_at f))

module _ (fl : Floats) (s : Schema) where
  decode_field-entry :
      (f : SchemaField) (sc : Scalar) (rest : Bytes) (out : List (Bytes × Any))
      → IsKnown s f
      → TakenEntry fl f sc
      → decode_field fl
          (known_field s (key_of f / 2 ^ 3 % 2 ^ 32))
          (key_of f / 2 ^ 3 % 2 ^ 32)
          (bit_and (key_of f) 0x7)
          (sent_bytes fl (kind_at f) sc ++ rest)
          out
        ≡ ok (store f (settle fl (kind_at f) sc) out, length (sent_bytes fl (kind_at f) sc))
  unfolding decode_field
  decode_field-entry f sc rest out (h, e) (typed, normal) =
      rw (key_field f h, key_type f, e)
        (rw ((decode_value-sent_bytes fl [] rest f.typ (kind_at f) sc typed normal).1) refl)

  length-entry :
      (f : SchemaField) (sc : Scalar) (rest : Bytes)
      → 1 + length rest ≤ length (entry_bytes fl f sc ++ rest)
  length-entry f sc rest = omega (
    arith,
    length-append (entry_bytes fl f sc) rest,
    length-append (groups 9 (key_of f)) (sent_bytes fl (kind_at f) sc),
    length-groups 9 (key_of f),
  )

  -- A round on the bytes of one entry.
  decode_loop-entry :
      (fuel i : ℕ) (f : SchemaField) (sc : Scalar) (rest : Bytes) (out : List (Bytes × Any))
      → IsKnown s f
      → TakenEntry fl f sc
      → decode_loop fl s (suc fuel) i (entry_bytes fl f sc ++ rest) out
        ≡ decode_loop fl s fuel
            (i + length (groups 9 (key_of f)) + length (sent_bytes fl (kind_at f) sc))
            rest
            (store f (settle fl (kind_at f) sc) out)
  decode_loop-entry fuel i f sc rest out k n =
      let tag = groups 9 (key_of f) in
      let val = sent_bytes fl (kind_at f) sc in
      let behind : drop (length tag) (tag ++ (val ++ rest)) ≡ val ++ rest =
        drop-append_length tag (val ++ rest) in
      let read =
        read_varint-groups (key_of f) (val ++ rest)
          (omega (arith, k.0, kind_wire_type-lt (kind_at f))) in
      let step =
        decode_loop_round fl s fuel i (tag ++ (val ++ rest)) out
          (store f (settle fl (kind_at f) sc) out) (key_of f) (length tag) (length val) read
          (rw behind (decode_field-entry f sc rest out k n)) in
      rw (append_assoc tag val rest) (step ∙ rw (behind, drop-append_length val rest) refl)

  pub decode_loop-message :
      (es : List (SchemaField × Scalar)) (fuel i : ℕ) (out : List (Bytes × Any))
      → All (λ e. IsKnown s e.0 × TakenEntry fl e.0 e.1) es
      → length (message_bytes fl es) ≤ fuel
      → decode_loop fl s fuel i (message_bytes fl es) out
        ≡ some (ok (store_all (settled fl es) out))
  decode_loop-message [] fuel i out h enough = decode_loop_end fl s fuel i out
  decode_loop-message ((f, sc) ∷ es) zero i out h enough =
      absurd (omega (arith, length-entry f sc (message_bytes fl es)))
  decode_loop-message ((f, sc) ∷ es) (suc fuel) i out ((k, n), hs) enough =
      decode_loop-entry fuel i f sc (message_bytes fl es) out k n
      ∙ decode_loop-message es fuel
          (i + length (groups 9 (key_of f)) + length (sent_bytes fl (kind_at f) sc))
          (store f (settle fl (kind_at f) sc) out) hs
          (omega (arith, length-entry f sc (message_bytes fl es)))
