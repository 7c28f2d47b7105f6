-- ===== src/Config/Defaults.antt =====
-- applyDefaults of config.go. SHA-256 and time.ParseDuration are parameters.
use esphome_mpubsub.Base.{ℕ, ℤ, pos, negsuc, suc, ◌+◌, ◌*◌, ◌==◌, Bool, false, not, if◌then◌else◌}
use esphome_mpubsub.Base.{
  List, [], ◌∷◌, map, Bytes, lit, ◌=ᵇ◌, Option, none, some, Result, ok, err, ◌>>=◌,
}
use esphome_mpubsub.Base.Maps.{bytes_eq, lookup, insert}
use esphome_mpubsub.Schema.{Schema, SchemaField, SchemaError, new_schema}
use esphome_mpubsub.Wire.Address.{derive_key}
use esphome_mpubsub.Config.{
  MqttConfig, MpubsubConfig, BridgeEntry, SchemaConfig, SchemaFieldConfig, Config,
}
use esphome_mpubsub.Config.{
  ConfigError, delay_unparsed, delay_negative, schemas_gated, entry_gated, bad_schema, duplicate_id,
  undefined_schema,
}

abbrev pub or_default : Bytes → Bytes → Bytes
or_default s d = if s =ᵇ [] then d else s

-- `x == 0` of an int.
abbrev pub is_zero : ℤ → Bool
is_zero (pos n) = n == 0
is_zero (negsuc n) = false

abbrev pub or_one : ℤ → ℤ
or_one n = if is_zero n then pos 1 else n

abbrev pub default_delay : ℕ
default_delay = 100 * 1000000

unfoldable pub with_client_id : MqttConfig → MqttConfig
with_client_id m = record m { client_id = or_default m.client_id (lit "mpubsub-bridge") }

abbrev pub not_negative : ℤ → Result ConfigError ℕ
not_negative (pos n) = ok n
not_negative (negsuc n) = err (delay_negative (suc n))

unfoldable pub schema_field : SchemaFieldConfig → SchemaField
schema_field f = record { name = f.name; typ = f.typ; tag = f.tag; repeated = f.repeated }

abbrev pub schema_at : ℕ → Result SchemaError Schema → Result ConfigError Schema
schema_at i (ok s) = ok s
schema_at i (err e) = err (bad_schema i e)

-- The loop over the schemas, at index `i`, with the map that it fills.
unfoldable pub build_schemas :
    ℕ → List SchemaConfig → List (Bytes × Schema) → Result ConfigError (List (Bytes × Schema))
build_schemas i [] made = ok made
build_schemas i (sc ∷ rest) made = do
  s ← schema_at i (new_schema sc.id (map schema_field sc.fields))
  elim (lookup sc.id made) [
    | none ↦ build_schemas (i + 1) rest (insert sc.id s made)
    | some dup ↦ err (duplicate_id i sc.id)
  ]

unfoldable pub resolve_entry :
    ℕ → List (Bytes × Schema) → BridgeEntry → Result ConfigError BridgeEntry
resolve_entry i made b = if b.schema =ᵇ [] then ok b else elim (lookup b.schema made) [
  | none ↦ err (undefined_schema i b.schema)
  | some s ↦ ok (record b { schema_ptr = some s })
]

-- The loop that resolves the entries.
unfoldable pub resolve_entries :
    ℕ → List (Bytes × Schema) → List BridgeEntry → Result ConfigError (List BridgeEntry)
resolve_entries i made [] = ok []
resolve_entries i made (b ∷ rest) = do
  b' ← resolve_entry i made b
  rest' ← resolve_entries (i + 1) made rest
  ok (b' ∷ rest')

-- The loop over the entries where json_translation is off.
unfoldable pub gate_entries : ℕ → List BridgeEntry → Result ConfigError (Unit {0})
gate_entries i [] = ok tt
gate_entries i (b ∷ rest) =
    let next = gate_entries (i + 1) rest in
    if b.schema =ᵇ [] then next else err (entry_gated i b.schema)

abbrev pub gate_schemas : List SchemaConfig → Result ConfigError (Unit {0})
gate_schemas [] = ok tt
gate_schemas (s ∷ rest) = err schemas_gated

-- Without json_translation nothing may ask for it.
unfoldable pub gate : Config → Result ConfigError Config
gate c = do _ ← gate_schemas c.schemas; _ ← gate_entries 0 c.bridges; ok c

unfoldable pub resolve : Config → Result ConfigError Config
resolve c = do
  made ← build_schemas 0 c.schemas []
  entries ← resolve_entries 0 made c.bridges
  ok (record c { bridges = entries; schemas_by_id = made })

unfoldable pub resolve_schemas : Config → Result ConfigError Config
resolve_schemas c = if not c.json_translation then gate c else resolve c

module _ (sha256 : Bytes → Bytes) (parse_duration : Bytes → Option ℤ) where
  unfoldable pub delay_of : Bytes → Result ConfigError ℕ
  delay_of raw =
      if raw =ᵇ []
      then ok default_delay
      else elim (parse_duration raw) [ none ↦ err (delay_unparsed raw) | some d ↦ not_negative d ]

  abbrev pub key_of_phrase : Bytes → Option Bytes → Option Bytes
  key_of_phrase phrase old = if phrase =ᵇ [] then old else some (derive_key sha256 phrase)

  unfoldable pub with_defaults : MpubsubConfig → Result ConfigError MpubsubConfig
  with_defaults m = do
    delay ← delay_of m.retransmit_delay_raw
    ok (record m {
      port = if m.port == 0 then 18512 else m.port;
      scope = or_default m.scope (lit "link-local");
      hops = or_one m.hops;
      retransmit_count = or_one m.retransmit_count;
      retransmit_delay = delay;
      encryption_key = key_of_phrase m.encryption.key m.encryption_key;
    })

  unfoldable pub apply_defaults : Config → Result ConfigError Config
  apply_defaults c = do
    m ← with_defaults c.mpubsub
    resolve_schemas (record c { mqtt = with_client_id c.mqtt; mpubsub = m })
