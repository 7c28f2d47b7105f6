-- ===== src/Config/Validation.antt =====
-- validate of config.go.
pub mod Exact
use esphome_mpubsub.Base.{
  ℕ, ℤ, pos, negsuc, suc, ◌+◌, ◌*◌, ◌^◌, ◌==◌, ltb, leb, Bool, true, false, not, ◌&&◌, ◌||◌,
  if◌then◌else◌,
}
use esphome_mpubsub.Base.{
  List, [], ◌∷◌, Bytes, length, ◌=ᵇ◌, Option, none, some, Result, ok, err, ◌>>=◌,
}
use esphome_mpubsub.Wire.Packet.{WireError}
use esphome_mpubsub.Wire.Address.{parse_scope}
use esphome_mpubsub.Config.{
  Direction, mqtt_to_mpubsub, mpubsub_to_mqtt, unknown_direction, MpubsubConfig, BridgeEntry,
  Config,
}
use esphome_mpubsub.Config.{
  ConfigError, no_broker, bad_scope, bad_hops, bad_count, delay_too_short, no_bridges,
  no_mqtt_topic,
}
use esphome_mpubsub.Config.{
  no_mpubsub_topic, wildcard_topic, bad_direction, encryption_direction, encryption_no_key,
}

-- strings.ContainsAny(topic, "+#")
unfoldable pub has_wildcard : Bytes → Bool
has_wildcard [] = false
has_wildcard (c ∷ cs) = (c == b'+') || (c == b'#') || has_wildcard cs

-- `n < 1 || n > 255`
abbrev pub out_of_range : ℤ → Bool
out_of_range (pos n) = ltb n 1 || ltb 255 n
out_of_range (negsuc n) = true

abbrev pub is_minus_one : ℤ → Bool
is_minus_one (pos n) = false
is_minus_one (negsuc n) = n == 0

abbrev pub second : ℕ
second = 1000000000

-- `len(key) == 0`, of a nil key too.
abbrev pub no_key : Option Bytes → Bool
no_key none = true
no_key (some k) = length k == 0

abbrev pub is_inbound : Direction → Bool
is_inbound mpubsub_to_mqtt = true
is_inbound _ = false

-- The switch on the direction.
unfoldable pub check_direction : ℕ → Direction → Bytes → Result ConfigError (Unit {0})
check_direction i mqtt_to_mpubsub topic = ok tt
check_direction i mpubsub_to_mqtt topic =
    if topic =ᵇ []
    then err (no_mpubsub_topic i)
    else if has_wildcard topic
    then err (wildcard_topic i topic)
    else ok tt
check_direction i (unknown_direction d) topic = err (bad_direction i (unknown_direction d))

unfoldable pub check_encryption : ℕ → Option Bytes → BridgeEntry → Result ConfigError (Unit {0})
check_encryption i key b =
    if not b.require_encryption
    then ok tt
    else if not (is_inbound b.direction)
    then err (encryption_direction i b.direction)
    else if no_key key
    then err (encryption_no_key i)
    else ok tt

unfoldable pub check_entry : ℕ → Option Bytes → BridgeEntry → Result ConfigError (Unit {0})
check_entry i key b =
    if b.mqtt_topic =ᵇ []
    then err (no_mqtt_topic i)
    else do _ ← check_direction i b.direction b.mpubsub_topic; check_encryption i key b

unfoldable pub check_entries : ℕ → Option Bytes → List BridgeEntry → Result ConfigError (Unit {0})
check_entries i key [] = ok tt
check_entries i key (b ∷ rest) = do _ ← check_entry i key b; check_entries (i + 1) key rest

abbrev pub check_scope : Result WireError ℕ → Result ConfigError (Unit {0})
check_scope (ok n) = ok tt
check_scope (err e) = err (bad_scope e)

unfoldable pub check_mpubsub : MpubsubConfig → Result ConfigError (Unit {0})
check_mpubsub m = do
  _ ← check_scope (parse_scope m.scope)
  if out_of_range m.hops
      then err (bad_hops m.hops)
      else if not (is_minus_one m.retransmit_count) && out_of_range m.retransmit_count
      then err (bad_count m.retransmit_count)
      else if is_minus_one m.retransmit_count && ltb m.retransmit_delay second
      then err (delay_too_short m.retransmit_delay)
      else ok tt

unfoldable pub validate : Config → Result ConfigError (Unit {0})
validate c = if c.mqtt.broker =ᵇ [] then err no_broker else do
  _ ← check_mpubsub c.mpubsub
  if length c.bridges == 0
      then err no_bridges
      else check_entries 0 c.mpubsub.encryption_key c.bridges
