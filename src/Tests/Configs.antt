-- ===== src/Tests/Configs.antt =====
-- Configurations at concrete inputs. SHA-256 and the parsers here are constants.
use esphome_mpubsub.Base.{
  ℤ, pos, negsuc, ◌≡◌, ◌↔◌, refl, true, false, [], ◌∷◌, Bytes, Option, some, none, Result, ok, lit,
  replicate, ◌=ᵇ◌,
}
use esphome_mpubsub.Base.Maps.{lookup, insert, bytes_eq}
use esphome_mpubsub.Schema.{Schema, kind_of, new_schema, add_fields, add_field, compute_schema_id}
use esphome_mpubsub.Wire.Address.{parse_scope, derive_key}
use esphome_mpubsub.Config.{mpubsub_to_mqtt, Config}
use esphome_mpubsub.Config.Defaults.{
  schema_field, build_schemas, resolve_entry, resolve_entries, resolve, resolve_schemas, delay_of,
  with_client_id, with_defaults, apply_defaults,
}
use esphome_mpubsub.Config.Validation.{
  has_wildcard, check_direction, check_encryption, check_entry, check_entries, check_mpubsub,
  validate,
}
use esphome_mpubsub.Config.Validation.Exact.{IsValid, validate_iff}
use esphome_mpubsub.Config.Loading.{load_config}

abbrev pub digest : Bytes → Bytes
digest m = replicate 32 7

abbrev pub duration : Bytes → Option ℤ
duration t = some (pos 2000000000)

abbrev written : Config
written = record {
  mqtt = record {
    broker = lit "tcp";
    client_id = [];
    username = [];
    password = [];
    qos = 1;
    retain = false;
  };
  mpubsub = record {
    port = 0;
    scope = [];
    hops = pos 0;
    interface = [];
    retransmit_count = negsuc 0;
    retransmit_delay_raw = lit "2s";
    retransmit_delay = 0;
    promote_qos = false;
    encryption = record { key = lit "secret" };
    encryption_key = none;
  };
  schemas =
      record {
        id = lit "room";
        fields = record { tag = 1; typ = lit "float"; name = lit "temp"; repeated = false } ∷ [];
      }
      ∷ [];
  bridges =
      record {
        direction = mpubsub_to_mqtt;
        mqtt_topic = lit "out";
        mpubsub_topic = lit "t";
        require_encryption = true;
        schema = lit "room";
        schema_ptr = none;
      }
      ∷ [];
  json_translation = true;
  schemas_by_id = [];
}

abbrev room : Schema
room = record {
  id = lit "room";
  fields = record { name = lit "temp"; typ = lit "float"; tag = 1; repeated = false } ∷ [];
  by_tag = (1, 0) ∷ [];
  by_name = (lit "temp", 0) ∷ [];
  sid =
      compute_schema_id
        (record { name = lit "temp"; typ = lit "float"; tag = 1; repeated = false } ∷ []);
}

abbrev pub loaded : Config
loaded = record written {
  mqtt = record (written.mqtt) { client_id = lit "mpubsub-bridge" };
  mpubsub = record (written.mpubsub) {
    port = 18512;
    scope = lit "link-local";
    hops = pos 1;
    retransmit_delay = 2000000000;
    encryption_key = some (replicate 32 7);
  };
  bridges =
      record {
        direction = mpubsub_to_mqtt;
        mqtt_topic = lit "out";
        mpubsub_topic = lit "t";
        require_encryption = true;
        schema = lit "room";
        schema_ptr = some room;
      }
      ∷ [];
  schemas_by_id = (lit "room", room) ∷ [];
}

abbrev pub read_file : Bytes → Result Bytes Bytes
read_file path = ok (lit "mqtt:")

abbrev pub unmarshal : Bytes → Result Bytes Config
unmarshal content = ok written

pub loads : load_config digest duration read_file unmarshal (lit "bridge.yaml") ≡ ok loaded
unfolding load_config apply_defaults with_defaults delay_of with_client_id derive_key
    resolve_schemas resolve build_schemas schema_field new_schema add_fields add_field kind_of
    resolve_entries resolve_entry validate check_mpubsub check_entries check_entry check_direction
    check_encryption has_wildcard parse_scope lookup insert ◌=ᵇ◌
loads = refl

accepts : validate loaded ≡ ok tt
unfolding validate check_mpubsub check_entries check_entry check_direction check_encryption
    has_wildcard parse_scope ◌=ᵇ◌
accepts = refl

validate_example : (validate loaded ≡ ok tt) ↔ IsValid loaded
validate_example = validate_iff loaded
