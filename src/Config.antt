-- ===== src/Config.antt =====
-- bridges/mqtt-go/config.go: what a configuration holds, and the errors of loading it.
pub mod Defaults
pub mod Validation
pub mod Loading
use esphome_mpubsub.Base.{ℕ, ℤ, Bool, true, false, List, Bytes, Option}
use esphome_mpubsub.Schema.{Schema, SchemaError}
use esphome_mpubsub.Wire.Packet.{WireError}

-- `unknown_direction` is any other text than the two that are declared.
pub data Direction : Type 0 where
  mqtt_to_mpubsub mpubsub_to_mqtt : Direction
  unknown_direction : Bytes → Direction

pub record MqttConfig : Type 0 where
  pub broker : Bytes
  pub client_id : Bytes
  pub username : Bytes
  pub password : Bytes
  pub qos : ℕ
  pub retain : Bool

pub record EncryptionConfig : Type 0 where
  pub key : Bytes

-- A duration is in nanoseconds; `none` is a nil key.
pub record MpubsubConfig : Type 0 where
  pub port : ℕ
  pub scope : Bytes
  pub hops : ℤ
  pub interface : Bytes
  pub retransmit_count : ℤ
  pub retransmit_delay_raw : Bytes
  pub retransmit_delay : ℕ
  pub promote_qos : Bool
  pub encryption : EncryptionConfig
  pub encryption_key : Option Bytes

pub record BridgeEntry : Type 0 where
  pub direction : Direction
  pub mqtt_topic : Bytes
  pub mpubsub_topic : Bytes
  pub require_encryption : Bool
  pub schema : Bytes
  pub schema_ptr : Option Schema

pub record SchemaFieldConfig : Type 0 where
  pub tag : ℕ
  pub typ : Bytes
  pub name : Bytes
  pub repeated : Bool

pub record SchemaConfig : Type 0 where
  pub id : Bytes
  pub fields : List SchemaFieldConfig

pub record Config : Type 0 where
  pub mqtt : MqttConfig
  pub mpubsub : MpubsubConfig
  pub schemas : List SchemaConfig
  pub bridges : List BridgeEntry
  pub json_translation : Bool
  pub schemas_by_id : List (Bytes × Schema)

-- One constructor for each error, with what its text shows.
pub data ConfigError : Type 0 where
  unreadable : Bytes → ConfigError
  unparsable : Bytes → ConfigError
  delay_unparsed : Bytes → ConfigError
  delay_negative : ℕ → ConfigError
  schemas_gated : ConfigError
  entry_gated : ℕ → Bytes → ConfigError
  bad_schema : ℕ → SchemaError → ConfigError
  duplicate_id : ℕ → Bytes → ConfigError
  undefined_schema : ℕ → Bytes → ConfigError
  no_broker : ConfigError
  bad_scope : WireError → ConfigError
  bad_hops : ℤ → ConfigError
  bad_count : ℤ → ConfigError
  delay_too_short : ℕ → ConfigError
  no_bridges : ConfigError
  no_mqtt_topic : ℕ → ConfigError
  no_mpubsub_topic : ℕ → ConfigError
  wildcard_topic : ℕ → Bytes → ConfigError
  bad_direction : ℕ → Direction → ConfigError
  encryption_direction : ℕ → Direction → ConfigError
  encryption_no_key : ℕ → ConfigError
