-- ===== src/Tests/Bridges.antt =====
-- Routes and rounds of the receive loop at concrete inputs.
use esphome_mpubsub.Base.{
  ℕ, ◌≡◌, ◌≢◌, =ᵇ_iff, arith, if◌then◌else◌, refl, true, false, [], ◌∷◌, List, Bytes, All, Option,
  none, some, lit, ◌=ᵇ◌,
}
use esphome_mpubsub.Base.Maps.{lookup, insert, bytes_eq}
use esphome_mpubsub.Schema.{Schema}
use esphome_mpubsub.Wire.Crc32.{crc32}
use esphome_mpubsub.Wire.Packet.{topic_crc32}
use esphome_mpubsub.Config.{BridgeEntry, mqtt_to_mpubsub, mpubsub_to_mqtt}
use esphome_mpubsub.Bridge.{register, receive}
use esphome_mpubsub.Bridge.Routing.{routes_of}
use esphome_mpubsub.Bridge.Delivery.{
  IsForwarded, receive-IsForwarded, receive-encode_packet, deliver,
}
use esphome_mpubsub.Bridge.Retransmission.{
  Jobs, times, indefinite, publish, cancel_indefinite, start_indefinite, start,
  effective_retransmit_count, effective_retransmit_count_lem, max_count, least_count,
}
use esphome_mpubsub.Bridge.Retransmission.Single.{publish_supersedes}
use esphome_mpubsub.Tests.Wire.{
  topic, key, hello, secret_sent, secret_run, topic_bytes, hello_bytes,
}

abbrev pub as_it_is : Schema → Bytes → Option Bytes
as_it_is s b = some b

abbrev guarded : BridgeEntry
guarded = record {
  direction = mpubsub_to_mqtt;
  mqtt_topic = lit "out";
  mpubsub_topic = topic;
  require_encryption = true;
  schema = [];
  schema_ptr = none;
}

abbrev outward : BridgeEntry
outward = record guarded { direction = mqtt_to_mpubsub }

abbrev open_too : BridgeEntry
open_too = record guarded { mqtt_topic = lit "all"; require_encryption = false }

abbrev pub config : List BridgeEntry
config = outward ∷ guarded ∷ open_too ∷ []

receive-IsForwarded_example :
    All
      (IsForwarded as_it_is (register config []) (some key) secret_sent)
      (receive as_it_is (register config []) (some key) secret_sent)
receive-IsForwarded_example =
    receive-IsForwarded as_it_is (register config []) (some key) secret_sent

delivery_example :
    receive as_it_is (register config []) (some key) secret_sent
    ≡ deliver hello true (routes_of (topic_crc32 topic) config)
delivery_example =
    receive-encode_packet as_it_is config topic hello secret_sent (some key) topic_bytes hello_bytes
      secret_run

two_publishes :
    deliver hello true (routes_of (topic_crc32 topic) config)
    ≡ (lit "out", hello) ∷ (lit "all", hello) ∷ []
unfolding routes_of topic_crc32 crc32
two_publishes = refl

count_example :
    effective_retransmit_count true (times 2) 1
    ≡ (if true then max_count (times 2) (least_count 1) else times 2)
count_example = effective_retransmit_count_lem true (times 2) 1

abbrev two_jobs : Jobs
two_jobs = publish (lit "b") true indefinite (publish (lit "a") true indefinite start)

first_channel : lookup (lit "a") two_jobs.jobs ≡ some 0
unfolding publish cancel_indefinite start_indefinite lookup insert ◌=ᵇ◌
first_channel = refl

b_is_other : lit "b" ≢ lit "a"
unfolding ◌=ᵇ◌
b_is_other e =
    let same : (lit "b" =ᵇ lit "a") ≡ true = (=ᵇ_iff (lit "b") (lit "a")).1 e in
    absurd (ground arith)

supersede_example :
    ((publish (lit "a") true (times 1) two_jobs).closed 0 ≡ true)
    × ((c : ℕ) → c ≢ 0 → (publish (lit "a") true (times 1) two_jobs).closed c ≡ two_jobs.closed c)
    × (lookup (lit "b") (publish (lit "a") true (times 1) two_jobs).jobs
        ≡ lookup (lit "b") two_jobs.jobs)
supersede_example =
    publish_supersedes (lit "a") (lit "b") true (times 1) two_jobs 0 first_channel b_is_other
