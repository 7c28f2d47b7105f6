-- ===== src/Tests/Schemas.antt =====
-- Schemas at concrete inputs; the first is the one whose SCHEMA_ID the repository's tests lock.

use mathlib.Core.List.Perm
use esphome_mpubsub.Base.{◌≡◌, refl, true, false, [], ◌∷◌, ok, err, lit}
use esphome_mpubsub.Schema.{
  Schema, SchemaField, new_schema, add_fields, add_field, kind_of, compute_schema_id,
  canonical_schema_string, tag_reserved, duplicate_tag, empty_id, no_fields,
}
use esphome_mpubsub.Schema.Tables.{IsSchema, new_schema-IsSchema}
use esphome_mpubsub.Schema.Order.{canonical_schema_string-Perm}
use esphome_mpubsub.Base.Maps.{lookup, insert}
use esphome_mpubsub.Base.{◌=ᵇ◌}

abbrev room : SchemaField
room = record { name = lit "room"; typ = lit "string"; tag = 1; repeated = false }

abbrev temperature : SchemaField
temperature = record { name = lit "temperature"; typ = lit "float"; tag = 2; repeated = false }

abbrev blob : SchemaField
blob = record { name = lit "blob"; typ = lit "bytes"; tag = 3; repeated = false }

abbrev tags : SchemaField
tags = record { name = lit "tags"; typ = lit "string"; tag = 4; repeated = true }

parity : compute_schema_id (room ∷ temperature ∷ blob ∷ tags ∷ []) ≡ 0x2ce0
unfolding compute_schema_id
parity = refl

canonical :
    canonical_schema_string (temperature ∷ room ∷ []) ≡ lit "1:string:room\n2:float:temperature"
unfolding canonical_schema_string
canonical = refl

abbrev reading : Schema
reading = record {
  id = lit "reading";
  fields = room ∷ tags ∷ [];
  by_tag = (1, 0) ∷ (4, 1) ∷ [];
  by_name = (lit "room", 0) ∷ (lit "tags", 1) ∷ [];
  sid = compute_schema_id (room ∷ tags ∷ []);
}

built : new_schema (lit "reading") (room ∷ tags ∷ []) ≡ ok reading
unfolding new_schema add_fields add_field kind_of lookup insert ◌=ᵇ◌
built = refl

rejected :
    (new_schema [] (room ∷ []) ≡ err empty_id)
    × (new_schema (lit "x") [] ≡ err no_fields)
    × (new_schema (lit "x") (room ∷ (record room { name = lit "r" }) ∷ [])
        ≡ err (duplicate_tag (lit "r") 1))
    × (new_schema (lit "x") ((record room { tag = 19500 }) ∷ [])
        ≡ err (tag_reserved (lit "room") 19500))
unfolding new_schema add_fields add_field kind_of lookup insert ◌=ᵇ◌
rejected = (refl, refl, refl, refl)

new_schema-IsSchema_example : IsSchema (lit "reading") (room ∷ tags ∷ []) reading
new_schema-IsSchema_example = new_schema-IsSchema (lit "reading") (room ∷ tags ∷ []) reading built

order_example :
    (canonical_schema_string (room ∷ tags ∷ []) ≡ canonical_schema_string (tags ∷ room ∷ []))
    × (compute_schema_id (room ∷ tags ∷ []) ≡ compute_schema_id (tags ∷ room ∷ []))
order_example =
    canonical_schema_string-Perm (room ∷ tags ∷ []) (tags ∷ room ∷ []) (Perm.swap tags room [])
