-- ===== src/Tests/Nodes.antt =====
-- Nodes of the firmware at concrete inputs.

use esphome_mpubsub.Base.{negsuc, ◌≡◌, refl, arith, true, false}
use esphome_mpubsub.Base.{[], ◌∷◌, Bytes, replicate, ok}
use esphome_mpubsub.Base.Maps.{bytes_eq}
use esphome_mpubsub.Wire.Address
use esphome_mpubsub.Wire.Packet
use esphome_mpubsub.Wire.Packet.{encode_packet, decode_packet}
use esphome_mpubsub.Wire.Xxtea.{xxtea_encrypt, xxtea_decrypt}
use esphome_mpubsub.Bridge.{register, receive}
use esphome_mpubsub.Bridge.Routing.{routes_of}
use esphome_mpubsub.Bridge.Delivery
use esphome_mpubsub.Node.Topic.{topic_crc32, topic_to_group}
use esphome_mpubsub.Node.Format.{
  raw, encoding_byte, four_bytes, two_bytes, wrong_length, DecodedPacket, unencrypted, decode,
}
use esphome_mpubsub.Node.{Cipher, Node, Outgoing, subscribe, deliver, on_packet}
use esphome_mpubsub.Node.Sending.{node_datagram, send_and_schedule, publish}
use esphome_mpubsub.Base.{take, lit}
use esphome_mpubsub.Node.Sha256.{
  new_sha256, hash, finalize, padded, state_bytes, update, update_loop, fill, process_block,
  sha_rounds, sha_round, extend_words, block_words, rotr, length_bytes,
}
use esphome_mpubsub.Node.Sha256.Streaming.{HasRoom, update-append}
use esphome_mpubsub.Node.Interop.{IsXxtea, HasKeyField, key_of}
use esphome_mpubsub.Node.Interop.Sent.{sent_to, publish-encode_packet}
use esphome_mpubsub.Node.Interop.Heard.{heard, on_packet-decode_packet}
use esphome_mpubsub.Node.Interop.Across.{receive-publish, on_packet-publish}
use esphome_mpubsub.Node.Interop.Callbacks.{called_for}
use esphome_mpubsub.Node.Subscriptions.{now, then_does, subscribes, IsTable}
use esphome_mpubsub.Node.Subscriptions.Table.{NodeLater-IsTable}
use esphome_mpubsub.Node.Subscriptions.Demand.{others, subscribe-others}
use esphome_mpubsub.Tests.Configs.{digest}
use esphome_mpubsub.Tests.Wire.{topic, hello, topic_bytes, hello_bytes}
use esphome_mpubsub.Tests.Bridges.{as_it_is, config}

abbrev cipher : Cipher
cipher = record { encrypt = xxtea_encrypt; decrypt = xxtea_decrypt }

cipher-IsXxtea : IsXxtea cipher
cipher-IsXxtea = record {
  encrypts = λ v k two eight vs ks. refl;
  decrypts = λ v k two eight vs ks. refl;
}

abbrev node : Node
node = record {
  scope = 2;
  retransmit_count = negsuc 0;
  retransmit_delay_ms = 1000;
  encryption_enabled = true;
  encryption_key_bytes = replicate 32 7;
  socket = true;
  failed = false;
  joined = [];
  subscriptions = [];
  packets_sent = 0;
  packets_received = 0;
  indefinite_jobs = [];
}

field : HasKeyField node
field = (refl, omega arith)

publish_example :
    (publish cipher digest true topic hello raw node).attempts
    ≡ sent_to
        (Address.topic_to_group digest topic 2)
        (encode_packet topic hello (encoding_byte raw) (key_of node))
publish_example =
    publish-encode_packet cipher digest cipher-IsXxtea node field topic hello raw hello_bytes true
      refl

abbrev outgoing : Outgoing
outgoing = record {
  datagram = node_datagram cipher digest node topic hello raw;
  group = topic_to_group digest topic 2;
}

goes_out : (publish cipher digest true topic hello raw node).attempts ≡ outgoing ∷ []
unfolding publish send_and_schedule
goes_out = refl

receive-publish_example :
    receive as_it_is (register config []) (key_of node) outgoing.datagram
    ≡ Delivery.deliver hello true (routes_of (Packet.topic_crc32 topic) config)
receive-publish_example =
    receive-publish cipher cipher-IsXxtea node field digest topic hello topic_bytes hello_bytes true
      refl outgoing as_it_is config goes_out

abbrev listener : Node
listener = subscribe digest topic 4 true node

abbrev hearer : Node
hearer = record node {
  subscriptions =
      record {
        topic = topic;
        crc = topic_crc32 topic;
        group = topic_to_group digest topic 2;
        raw_callbacks = 4 ∷ [];
        typed_callbacks = [];
        require_encryption = true;
      }
      ∷ [];
}

on_packet-publish_example :
    (on_packet cipher hearer outgoing.datagram).1
    ≡ called_for (topic_crc32 topic) raw hello true hearer.subscriptions
on_packet-publish_example =
    on_packet-publish cipher cipher-IsXxtea node hearer field field refl digest topic hello raw true
      outgoing topic_bytes hello_bytes refl goes_out

abbrev spoken : Bytes
spoken = b'M' ∷ b'P' ∷ 1 ∷ 0 ∷ 1 ∷ 2 ∷ 3 ∷ 4 ∷ 2 ∷ 0 ∷ 0 ∷ 0 ∷ 104 ∷ 105 ∷ []

heard_example :
    (on_packet cipher hearer spoken).1 ≡ heard hearer (decode_packet spoken (key_of hearer))
heard_example =
    on_packet-decode_packet cipher cipher-IsXxtea hearer field spoken (omega arith) (omega arith)

IsTable_example : IsTable digest listener
IsTable_example =
    NodeLater-IsTable digest cipher node listener (then_does now (subscribes topic 4 true)) refl

abbrev spoken_packet : DecodedPacket
spoken_packet = record {
  topic_crc = 0x04030201;
  encoding = raw;
  enc_mode = unencrypted;
  plaintext_len = 2;
  payload = 104 ∷ 105 ∷ [];
}

spoken_decoded : decode spoken ≡ ok spoken_packet
unfolding decode wrong_length four_bytes two_bytes
spoken_decoded = refl

demand_example :
    (on_packet cipher (subscribe digest topic 5 false listener) spoken).1
    ≡ deliver
        (others topic (subscribe digest topic 5 false listener).subscriptions)
        0x04030201
        raw
        (104 ∷ 105 ∷ [])
        false
demand_example =
    subscribe-others cipher digest node node (subscribe digest topic 5 false listener) topic 4
      spoken spoken_packet refl now (then_does now (subscribes topic 5 false)) spoken_decoded refl

-- The digest of `abc` in FIPS 180-4.
abc_digest : take 8 (hash (lit "abc")) ≡ 0xBA ∷ 0x78 ∷ 0x16 ∷ 0xBF ∷ 0x8F ∷ 0x01 ∷ 0xCF ∷ 0xEA ∷ []
unfolding hash finalize padded state_bytes update update_loop fill process_block sha_rounds
    sha_round extend_words block_words rotr length_bytes
abc_digest = refl

update_example :
    (update (lit "c") (update (lit "ab") new_sha256) ≡ update (lit "abc") new_sha256)
    × HasRoom (update (lit "ab") new_sha256)
update_example = update-append (lit "ab") (lit "c") new_sha256 (omega arith)
