-- ===== src/Proto/Message.antt =====
-- Messages whose values have the types that decodeValue gives them, and their bytes on the wire.
pub mod Encoding
pub mod Decoding
pub mod Stored
pub mod Known
pub mod Settled
pub mod Accepted
pub mod RoundTrip
pub mod Typed
use esphome_mpubsub.Base.{
  ℕ, ◌+◌, ◌*◌, ◌^◌, ◌%◌, ◌≤◌, ◌<◌, ◌≡◌, refl, ap, sym, ◌∙◌, arith, Bool, true, false,
}
use esphome_mpubsub.Base.{
  List, [], ◌∷◌, ◌++◌, Bytes, length, All, Option, none, some, ok, append_assoc, length-append,
}
use esphome_mpubsub.Base.Bits.{bit_or_fields}
use esphome_mpubsub.Base.Maps.{bytes_eq, lookup}
use esphome_mpubsub.Schema.{
  Kind, kind_of, bool_kind, int32_kind, int64_kind, uint32_kind, uint64_kind, SchemaField,
}
use esphome_mpubsub.Schema.{sint32_kind, sint64_kind, float_kind, string_kind, bytes_kind}
use esphome_mpubsub.Schema.Tables.{IsField}
use esphome_mpubsub.Proto.Varint.{append_tag}
use esphome_mpubsub.Proto.Varint.Groups.{groups, append_varint-groups, length-groups}
use esphome_mpubsub.Proto.Value.{Scalar, Any, one, many, Floats, kind_wire_type}
use esphome_mpubsub.Proto.Value.RoundTrip.{IsNormal}
use esphome_mpubsub.Proto.Value.Taken.{IsTaken, sent_bytes, settle}

-- The type of a field; every field of a schema has one.
unfoldable pub kind_at : SchemaField → Kind
kind_at f = elim (kind_of f.typ) [ none ↦ bool_kind | some k ↦ k ]

pub kind_at-some : (f : SchemaField) (k : Kind) → kind_of f.typ ≡ some k → kind_at f ≡ k
unfolding kind_at
kind_at-some f k e = rw (kind_at, e) refl

pub kind_at_typed : (f : SchemaField) → IsField f → kind_of f.typ ≡ some (kind_at f)
kind_at_typed f h = let (k, e) = h.typed in e ∙ ap some (sym (kind_at-some f k e))

-- The number that is written in front of a value.
abbrev pub key_of : SchemaField → ℕ
key_of f = f.tag * 8 + kind_wire_type (kind_at f)

pub kind_wire_type-lt : (k : Kind) → kind_wire_type k < 8
unfolding kind_wire_type
kind_wire_type-lt k = grind arith

module _ (fl : Floats) where
  abbrev pub entry_bytes : SchemaField → Scalar → Bytes
  entry_bytes f sc = groups 9 (key_of f) ++ sent_bytes fl (kind_at f) sc

  abbrev pub message_bytes : List (SchemaField × Scalar) → Bytes
  message_bytes [] = []
  message_bytes ((f, sc) ∷ es) = entry_bytes f sc ++ message_bytes es

  abbrev pub TakenEntry : SchemaField → Scalar → Type 0
  TakenEntry f sc = (kind_of f.typ ≡ some (kind_at f)) × IsTaken fl (kind_at f) sc

  -- A field has no value, or values that its type takes: a list where it is repeated.
  abbrev pub TakenValue : SchemaField → Option Any → Type 0
  TakenValue f none = Unit {0}
  TakenValue f (some (one sc)) = (f.repeated ≡ false) × TakenEntry f sc
  TakenValue f (some (many xs)) = (f.repeated ≡ true) × All (TakenEntry f) xs

  abbrev pub NormalEntry : SchemaField → Scalar → Type 0
  NormalEntry f sc = (kind_of f.typ ≡ some (kind_at f)) × IsNormal fl (kind_at f) sc

  -- A field has no value, or one of its type: a list where it is repeated.
  abbrev pub NormalValue : SchemaField → Option Any → Type 0
  NormalValue f none = Unit {0}
  NormalValue f (some (one sc)) = (f.repeated ≡ false) × NormalEntry f sc
  NormalValue f (some (many xs)) = (f.repeated ≡ true) × All (NormalEntry f) xs

abbrev pub each_entry : SchemaField → List Scalar → List (SchemaField × Scalar)
each_entry f [] = []
each_entry f (x ∷ xs) = (f, x) ∷ each_entry f xs

-- What a field writes, one entry a value.
abbrev pub entries_of : SchemaField → Option Any → List (SchemaField × Scalar)
entries_of f none = []
entries_of f (some (one sc)) = (f, sc) ∷ []
entries_of f (some (many xs)) = each_entry f xs

abbrev pub entries : List SchemaField → (SchemaField → Option Any) → List (SchemaField × Scalar)
entries [] val = []
entries (f ∷ fs) val = entries_of f (val f) ++ entries fs val

-- `values[f.Name]`
abbrev pub given : List (Bytes × Any) → SchemaField → Option Any
given values f = lookup f.name values

-- What a reader finds of a value: a list without elements leaves no trace.
abbrev pub kept : Option Any → Option Any
kept (some (many [])) = none
kept v = v

pub message_bytes-append :
    (fl : Floats) (us bs : List (SchemaField × Scalar))
    → message_bytes fl (us ++ bs) ≡ message_bytes fl us ++ message_bytes fl bs
message_bytes-append fl [] bs = refl
message_bytes-append fl ((f, sc) ∷ us) bs =
    ap (λ (t : Bytes). entry_bytes fl f sc ++ t) (message_bytes-append fl us bs)
    ∙ sym (append_assoc (entry_bytes fl f sc) (message_bytes fl us) (message_bytes fl bs))

-- The tag of a field takes the place above the three bits of the wire type.
pub append_tag-groups :
    (buf : Bytes) (f : SchemaField)
    → f.tag ≤ 536870911
    → append_tag buf f.tag (kind_wire_type (kind_at f)) ≡ buf ++ groups 9 (key_of f)
unfolding append_tag
append_tag-groups buf f h =
    let small = kind_wire_type-lt (kind_at f) in
    let fits : f.tag * 2 ^ 3 % 2 ^ 64 ≡ f.tag * 2 ^ 3 = omega arith in
    rw (fits, bit_or_fields 3 f.tag (kind_wire_type (kind_at f)) small)
      (append_varint-groups buf (key_of f) (omega arith))

-- What a reader makes of the entries and of the values that they come from.
module _ (fl : Floats) where
  abbrev pub settled : List (SchemaField × Scalar) → List (SchemaField × Scalar)
  settled [] = []
  settled ((f, sc) ∷ es) = (f, settle fl (kind_at f) sc) ∷ settled es

  abbrev pub settle_each : SchemaField → List Scalar → List Scalar
  settle_each f [] = []
  settle_each f (x ∷ xs) = settle fl (kind_at f) x ∷ settle_each f xs

  abbrev pub settle_any : SchemaField → Option Any → Option Any
  settle_any f none = none
  settle_any f (some (one sc)) = some (one (settle fl (kind_at f) sc))
  settle_any f (some (many xs)) = some (many (settle_each f xs))
