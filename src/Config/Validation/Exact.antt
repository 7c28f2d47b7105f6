-- ===== src/Config/Validation/Exact.antt =====
-- Which configurations validate accepts.
use esphome_mpubsub.Base.{
  ℕ, ℤ, pos, negsuc, ◌+◌, ◌≤◌, ◌≡◌, ◌≢◌, ◌↔◌, ◌⊎◌, inl, inr, refl, arith, ltb, true, false, not,
  ◌&&◌,
}
use esphome_mpubsub.Base.{
  List, [], ◌∷◌, Bytes, length, All, ◌=ᵇ◌, Option, none, some, Result, ok, err, Result-cases,
}
use esphome_mpubsub.Wire.Packet.{WireError}
use esphome_mpubsub.Wire.Address.{parse_scope}
use esphome_mpubsub.Config.{
  Direction, mqtt_to_mpubsub, mpubsub_to_mqtt, unknown_direction, MpubsubConfig, BridgeEntry,
  Config,
}
use esphome_mpubsub.Config.Validation.{
  out_of_range, is_minus_one, second, no_key, is_inbound, has_wildcard, check_direction,
  check_encryption, check_entry, check_entries, check_mpubsub, validate, check_scope,
}

abbrev pub IsPlain : Bytes → Type 0
IsPlain topic = All (λ c. (c ≢ b'+') × (c ≢ b'#')) topic

-- Where an entry leads, and what its mpubsub topic is.
abbrev pub IsRouted : Direction → Bytes → Type 0
IsRouted mqtt_to_mpubsub topic = Unit {0}
IsRouted mpubsub_to_mqtt topic = (1 ≤ length topic) × IsPlain topic
IsRouted (unknown_direction d) topic = ⊥

abbrev pub key_len : Option Bytes → ℕ
key_len none = 0
key_len (some k) = length k

-- What require_encryption asks for.
abbrev pub IsGuarded : Option Bytes → BridgeEntry → Type 0
IsGuarded key b =
    (b.require_encryption ≡ false) ⊎ ((b.direction ≡ mpubsub_to_mqtt) × (1 ≤ key_len key))

abbrev pub IsEntry : Option Bytes → BridgeEntry → Type 0
IsEntry key b = (1 ≤ length b.mqtt_topic) × IsRouted b.direction b.mpubsub_topic × IsGuarded key b

nonempty_iff : (s : Bytes) → ((s =ᵇ []) ≡ false) ↔ (1 ≤ length s)
unfolding ◌=ᵇ◌
nonempty_iff [] = ground arith
nonempty_iff (c ∷ cs) = ground arith

has_wildcard_iff : (topic : Bytes) → (has_wildcard topic ≡ false) ↔ IsPlain topic
unfolding has_wildcard
has_wildcard_iff [] = (λ h. tt, λ h. refl)
has_wildcard_iff (c ∷ cs) = ground (arith, has_wildcard_iff cs)

check_direction_iff :
    (i : ℕ) (d : Direction) (topic : Bytes) → (check_direction i d topic ≡ ok tt) ↔ IsRouted d topic
unfolding check_direction
check_direction_iff i mqtt_to_mpubsub topic = (λ h. tt, λ h. refl)
check_direction_iff i mpubsub_to_mqtt topic =
    ground (arith, nonempty_iff topic, has_wildcard_iff topic)
check_direction_iff i (unknown_direction d) topic = ((λ h. cc), (λ h. absurd h))

inbound_iff : (d : Direction) → (is_inbound d ≡ true) ↔ (d ≡ mpubsub_to_mqtt)
inbound_iff mqtt_to_mpubsub = ((λ h. cc), (λ h. cc))
inbound_iff mpubsub_to_mqtt = ((λ h. refl), (λ h. refl))
inbound_iff (unknown_direction d) = ((λ h. cc), (λ h. cc))

no_key_iff : (key : Option Bytes) → (no_key key ≡ false) ↔ (1 ≤ key_len key)
no_key_iff none = ground arith
no_key_iff (some k) = ground arith

check_encryption_iff :
    (i : ℕ) (key : Option Bytes) (b : BridgeEntry)
    → (check_encryption i key b ≡ ok tt) ↔ IsGuarded key b
unfolding check_encryption
check_encryption_iff i key b = ground (arith, inbound_iff b.direction, no_key_iff key)

check_entry_iff :
    (i : ℕ) (key : Option Bytes) (b : BridgeEntry) → (check_entry i key b ≡ ok tt) ↔ IsEntry key b
unfolding check_entry
check_entry_iff i key b = ground (
  arith,
  nonempty_iff b.mqtt_topic,
  check_direction_iff i b.direction b.mpubsub_topic,
  check_encryption_iff i key b,
)

check_entries_iff :
    (bs : List BridgeEntry) (i : ℕ) (key : Option Bytes)
    → (check_entries i key bs ≡ ok tt) ↔ All (IsEntry key) bs
unfolding check_entries
check_entries_iff [] i key = (λ h. tt, λ h. refl)
check_entries_iff (b ∷ bs) i key =
    ground (arith, check_entry_iff i key b, check_entries_iff bs (i + 1) key)

abbrev pub InRange : ℤ → Type 0
InRange (pos n) = (1 ≤ n) × (n ≤ 255)
InRange (negsuc n) = ⊥

-- A count of 1 to 255, or -1 with a delay of a second at least.
abbrev pub IsCount : ℤ → ℕ → Type 0
IsCount (pos n) delay = (1 ≤ n) × (n ≤ 255)
IsCount (negsuc n) delay = (n ≡ 0) × (1000000000 ≤ delay)

abbrev pub IsMpubsub : MpubsubConfig → Type 0
IsMpubsub m =
    ((n : ℕ) × (parse_scope m.scope ≡ ok n))
    × InRange m.hops
    × IsCount m.retransmit_count m.retransmit_delay

abbrev pub IsValid : Config → Type 0
IsValid c =
    (1 ≤ length c.mqtt.broker)
    × IsMpubsub c.mpubsub
    × (1 ≤ length c.bridges)
    × All (IsEntry c.mpubsub.encryption_key) c.bridges

range_iff : (n : ℤ) → (out_of_range n ≡ false) ↔ InRange n
range_iff (pos n) = ground arith
range_iff (negsuc n) = ((λ h. cc), (λ h. absurd h))

IsCount-iff :
    (n : ℤ) (delay : ℕ)
    → ((not (is_minus_one n) && out_of_range n) ≡ false)
        × ((is_minus_one n && ltb delay second) ≡ false)
      ↔ IsCount n delay
IsCount-iff (pos n) delay = ground arith
IsCount-iff (negsuc n) delay = ground arith

check_scope_iff : (r : Result WireError ℕ) → (check_scope r ≡ ok tt) ↔ ((n : ℕ) × (r ≡ ok n))
check_scope_iff (ok n) = ((λ h. (n, refl)), (λ h. refl))
check_scope_iff (err e) = ((λ h. cc), (λ h. cc h.1))

check_mpubsub_iff : (m : MpubsubConfig) → (check_mpubsub m ≡ ok tt) ↔ IsMpubsub m
unfolding check_mpubsub
check_mpubsub_iff m = elim (Result-cases (parse_scope m.scope)) [
  | inl (n, e) ↦
      let ranges = range_iff m.hops in
      let counts = IsCount-iff m.retransmit_count m.retransmit_delay in
      (
        (λ h. ((n, e), ground (arith, ranges), ground (arith, counts))),
        (λ v. rw (check_mpubsub, e) (ground (arith, ranges, counts, v))),
      )
  | inr (x, e) ↦ ((λ h. absurd (ground arith)), (λ v. ground (arith, v.0.1)))
]

-- validate accepts exactly the configurations with a broker, a known scope, hops from 1 to 255, a
-- retransmit_count from 1 to 255, or -1 with a delay of a second at least, and one entry or more,
-- each with an MQTT topic and a known direction; an entry towards MQTT has an mpubsub topic without
-- `+` and `#`, and one that requires encryption leads to MQTT and there is a key.
pub validate_iff : (c : Config) → (validate c ≡ ok tt) ↔ IsValid c
unfolding validate
validate_iff c = ground (
  arith,
  nonempty_iff c.mqtt.broker,
  check_mpubsub_iff c.mpubsub,
  check_entries_iff c.bridges 0 c.mpubsub.encryption_key,
)
