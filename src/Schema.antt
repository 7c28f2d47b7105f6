-- ===== src/Schema.antt =====
-- bridges/mqtt-go/schema.go: message schemas, their validation and the SCHEMA_ID.
pub mod Tables
pub mod Order
use esphome_mpubsub.Base.{ℕ, zero, suc, ◌+◌, ◌/◌, ◌%◌, ◌^◌, bit_and}
use esphome_mpubsub.Base.{Bool, true, false, ◌&&◌, ◌||◌, ◌==◌, ltb, leb, if◌then◌else◌}
use esphome_mpubsub.Base.{List, [], ◌∷◌, ◌++◌, map, Bytes, lit, ◌=ᵇ◌, Option, none, some}
use esphome_mpubsub.Base.{Result, ok, err, ◌>>=◌}
use esphome_mpubsub.Base.Maps.{nat_eq, bytes_eq, lookup, insert}
use esphome_mpubsub.Wire.Crc32.{crc32}

pub record SchemaField : Type 0 where
  pub name : Bytes
  pub typ : Bytes
  pub tag : ℕ
  pub repeated : Bool

pub record Schema : Type 0 where
  pub id : Bytes
  pub fields : List SchemaField
  pub by_tag : List (ℕ × ℕ)
  pub by_name : List (Bytes × ℕ)
  pub sid : ℕ

-- The ten type names, as every switch on a field's type tells them apart.
pub data Kind : Type 0 where
  bool_kind int32_kind int64_kind uint32_kind uint64_kind : Kind
  sint32_kind sint64_kind float_kind string_kind bytes_kind : Kind

-- `none` is the default case.
unfoldable pub kind_of : Bytes → Option Kind
kind_of typ =
    if typ =ᵇ lit "bool"
    then some bool_kind
    else if typ =ᵇ lit "int32"
    then some int32_kind
    else if typ =ᵇ lit "int64"
    then some int64_kind
    else if typ =ᵇ lit "uint32"
    then some uint32_kind
    else if typ =ᵇ lit "uint64"
    then some uint64_kind
    else if typ =ᵇ lit "sint32"
    then some sint32_kind
    else if typ =ᵇ lit "sint64"
    then some sint64_kind
    else if typ =ᵇ lit "float"
    then some float_kind
    else if typ =ᵇ lit "string"
    then some string_kind
    else if typ =ᵇ lit "bytes"
    then some bytes_kind
    else none

-- The errors of NewSchema, with the field and the tag that their text shows.
pub data SchemaError : Type 0 where
  empty_id no_fields : SchemaError
  tag_out_of_range tag_reserved duplicate_tag : Bytes → ℕ → SchemaError
  duplicate_name : Bytes → SchemaError
  unknown_type : Bytes → Bytes → SchemaError

pub record Lookups : Type 0 where
  pub tags : List (ℕ × ℕ)
  pub names : List (Bytes × ℕ)

abbrev pub known_key {ℓ} : {A : Type ℓ} → Option A → Bool
known_key none = false
known_key (some a) = true

-- One round of the loop over the fields, at index `i`.
unfoldable pub add_field : ℕ → SchemaField → Lookups → Result SchemaError Lookups
add_field i f t =
    if ltb f.tag 1 || ltb 536870911 f.tag
    then err (tag_out_of_range f.name f.tag)
    else if leb 19000 f.tag && leb f.tag 19999
    then err (tag_reserved f.name f.tag)
    else if known_key (lookup f.tag t.tags)
    then err (duplicate_tag f.name f.tag)
    else if known_key (lookup f.name t.names)
    then err (duplicate_name f.name)
    else if known_key (kind_of f.typ)
    then ok (record { tags = insert f.tag i t.tags; names = insert f.name i t.names })
    else err (unknown_type f.name f.typ)

unfoldable pub add_fields : ℕ → List SchemaField → Lookups → Result SchemaError Lookups
add_fields i [] t = ok t
add_fields i (f ∷ fs) t = do t' ← add_field i f t; add_fields (i + 1) fs t'

-- `%d` of a uint32, which has at most ten digits.
unfoldable pub decimal : ℕ → ℕ → Bytes
decimal zero n = []
decimal (suc fuel) n =
    let front = decimal fuel (n / 10) in
    if ltb n 10 then (b'0' + n) ∷ [] else front ++ (b'0' + n % 10) ∷ []

unfoldable pub field_line : SchemaField → Bytes
unfolding decimal
field_line f =
    let typ = if f.repeated then lit "repeated " ++ f.typ else f.typ in
    decimal 10 f.tag ++ (lit ":" ++ (typ ++ (lit ":" ++ f.name)))

-- The order of Go strings, and `sort.Strings` and `strings.Join` of the standard library.
unfoldable pub le_bytes : Bytes → Bytes → Bool
le_bytes [] ys = true
le_bytes (x ∷ xs) [] = false
le_bytes (x ∷ xs) (y ∷ ys) = ltb x y || (x == y && le_bytes xs ys)

unfoldable pub insert_sorted : Bytes → List Bytes → List Bytes
unfolding le_bytes
insert_sorted x [] = x ∷ []
insert_sorted x (y ∷ ys) = if le_bytes x y then x ∷ y ∷ ys else y ∷ insert_sorted x ys

unfoldable pub sort_strings : List Bytes → List Bytes
unfolding insert_sorted
sort_strings [] = []
sort_strings (x ∷ xs) = insert_sorted x (sort_strings xs)

unfoldable pub join_lines : List Bytes → Bytes
join_lines [] = []
join_lines (x ∷ []) = x
join_lines (x ∷ y ∷ ys) = x ++ (lit "\n" ++ join_lines (y ∷ ys))

unfoldable pub canonical_schema_string : List SchemaField → Bytes
unfolding field_line sort_strings join_lines
canonical_schema_string fields = join_lines (sort_strings (map field_line fields))

unfoldable pub compute_schema_id : List SchemaField → ℕ
unfolding canonical_schema_string crc32
compute_schema_id fields = bit_and (crc32 (canonical_schema_string fields)) 0xFFFF % 2 ^ 16

unfoldable pub new_schema : Bytes → List SchemaField → Result SchemaError Schema
new_schema id [] = if id =ᵇ [] then err empty_id else err no_fields
new_schema id (f ∷ fs) = if id =ᵇ [] then err empty_id else do
  t ← add_fields 0 (f ∷ fs) (record { tags = []; names = [] })
  ok (record {
    id = id;
    fields = f ∷ fs;
    by_tag = t.tags;
    by_name = t.names;
    sid = compute_schema_id (f ∷ fs);
  })
