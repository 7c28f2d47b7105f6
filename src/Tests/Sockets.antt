-- ===== src/Tests/Sockets.antt =====
-- The socket, the start of the bridge and its handler at concrete inputs.

use esphome_mpubsub.Base.{
  ℕ, if◌then◌else◌, pos, ◌^◌, ◌<◌, ◌≡◌, refl, arith, true, false, ltb, [], ◌∷◌, Bytes, length, List,
  All, IsByte, some, none, ok, lit, ◌=ᵇ◌,
}
use esphome_mpubsub.Base.Maps.{lookup, insert, bytes_eq}
use esphome_mpubsub.Schema.{known_key, compute_schema_id, canonical_schema_string}
use esphome_mpubsub.Wire.Crc32.{crc32}
use esphome_mpubsub.Wire.Packet.{topic_crc32, encode_packet, encode_body, datagram}
use esphome_mpubsub.Wire.Address.{parse_scope, topic_to_group}
use esphome_mpubsub.Config.{mqtt_to_mpubsub, mpubsub_to_mqtt, BridgeEntry, MpubsubConfig}
use esphome_mpubsub.Socket.{
  Kernel, listen, set_hop_limit, set_interface, enable_loopback, close, MulticastSocket, join,
  choose_interface, configure, set_outgoing, open_on, open_multicast_socket,
}
use esphome_mpubsub.Socket.Opening.{IsOpened, stays_open, succeeded, open_multicast_socket-IsOpened}
use esphome_mpubsub.Bridge.{register, add_route, routes_for, receive}
use esphome_mpubsub.Bridge.Routing.{routes_of}
use esphome_mpubsub.Bridge.Startup.{
  Broker, Started, subscribe, listen_to, start_entries, run, new_bridge,
}
use esphome_mpubsub.Bridge.Startup.Registered.{IsRunning}
use esphome_mpubsub.Bridge.Retransmission.{effective_retransmit_count, start, started}
use esphome_mpubsub.Bridge.Handling.{
  count_of, with_schema_id, message_body, message_packet, handle_mqtt_message,
}
use esphome_mpubsub.Bridge.Handling.Sending.{IsCarried, handle_mqtt_message-IsCarried}
use esphome_mpubsub.Bridge.Handling.Across.{
  Message, IsSentAs, published_by, json_of, receive-message_packet,
}
use esphome_mpubsub.Config.Loading.{load_config}
use esphome_mpubsub.Program.{main}
use esphome_mpubsub.Program.Running.{main-IsRunning}
use esphome_mpubsub.Bridge.Startup.{sub_qos}
use esphome_mpubsub.Tests.Configs.{digest, duration, read_file, unmarshal, loads, loaded}
use esphome_mpubsub.Tests.Messages.{report}
use esphome_mpubsub.Tests.Json.{words, lib, text, sent, translates}
use esphome_mpubsub.Tests.Wire.{topic, topic_bytes}

-- A kernel that takes every call but the one for loopback.
abbrev deaf : Kernel
deaf = record {
  find_interface = λ name. some 3;
  accepts = λ c. elim c [
    | listen p ↦ true
    | set_hop_limit n ↦ true
    | set_interface i ↦ true
    | enable_loopback ↦ false
    | close ↦ true
  ];
  joins = λ i g. true;
  text = λ g. g;
}

open_example :
    let out = open_multicast_socket deaf loaded.mpubsub in
    IsOpened deaf loaded.mpubsub (choose_interface deaf loaded.mpubsub.interface) out
    × (stays_open deaf.accepts false out.0 ≡ succeeded out.1)
open_example = open_multicast_socket-IsOpened deaf loaded.mpubsub

abbrev kernel : Kernel
kernel = record deaf { accepts = λ c. true }

abbrev broker : Broker
broker = record { connects = true; subscribes = λ topic qos. true }

abbrev pub inward : BridgeEntry
inward = record {
  direction = mqtt_to_mpubsub;
  mqtt_topic = lit "in";
  mpubsub_topic = [];
  require_encryption = false;
  schema = lit "report";
  schema_ptr = some report;
}

abbrev outward : BridgeEntry
outward = record inward {
  direction = mpubsub_to_mqtt;
  mqtt_topic = lit "out";
  mpubsub_topic = topic;
}

abbrev pub entries : List BridgeEntry
entries = inward ∷ outward ∷ record outward { mqtt_topic = lit "raw"; schema_ptr = none } ∷ []

abbrev opened : MulticastSocket
opened = record { iface = none; port = 18512; joined = []; calls = [] }

opens : new_bridge kernel loaded.mpubsub ≡ ok (2, opened)
unfolding new_bridge parse_scope open_multicast_socket choose_interface open_on configure
    set_outgoing ◌=ᵇ◌
opens = refl

abbrev group : Bytes
group = topic_to_group digest topic 2

abbrev running : Started
running = record {
  subscriptions = record { topic = lit "in"; qos = 1; entry = inward } ∷ [];
  socket = record opened { joined = (group, group) ∷ []; calls = group ∷ [] };
  crc_to_mqtt = register entries [];
}

runs : run kernel broker digest 2 1 entries opened ≡ ok running
unfolding run start_entries subscribe listen_to join topic_to_group lookup insert register add_route
    routes_for ◌=ᵇ◌ topic_crc32 crc32
runs = refl

abbrev path : Bytes
path = lit "bridge.yaml"

abbrev up : Started
up = record {
  subscriptions = [];
  socket = record opened {
    joined = (topic_to_group digest (lit "t") 2, topic_to_group digest (lit "t") 2) ∷ [];
    calls = topic_to_group digest (lit "t") 2 ∷ [];
  };
  crc_to_mqtt = register loaded.bridges [];
}

starts : run kernel broker digest 2 1 loaded.bridges opened ≡ ok up
unfolding run start_entries listen_to join topic_to_group lookup insert register add_route
    routes_for ◌=ᵇ◌ topic_crc32 crc32
starts = refl

main_runs : main digest duration read_file unmarshal kernel broker path ≡ ok (loaded, up)
unfolding main sub_qos
main_runs = rw (main, loads, opens, starts) refl

main_example :
    (load_config digest duration read_file unmarshal path ≡ ok loaded)
    × (scope : ℕ) × (parse_scope loaded.mpubsub.scope ≡ ok scope)
    × IsRunning kernel broker digest scope
        (if loaded.mpubsub.promote_qos then 2 else loaded.mqtt.qos)
        loaded.bridges
        up
main_example =
    main-IsRunning digest duration read_file unmarshal kernel broker path loaded up main_runs

abbrev body : Bytes
body = with_schema_id report.sid sent

abbrev pub packet : Bytes
packet =
    datagram 1 (length body) (record { body = body; enc_mode = 0; hdr_crc = topic_crc32 topic })

makes_body : message_body lib words (some report) text ≡ ok (body, 1)
unfolding message_body
makes_body = rw (message_body, translates) refl

pub makes_packet : message_packet lib words none topic (some report) text ≡ ok packet
unfolding message_packet encode_packet encode_body with_schema_id
makes_packet = rw (message_packet, makes_body) refl

body_bytes : All IsByte body
unfolding with_schema_id
body_bytes = omega arith

fits_id : report.sid < 2 ^ 16
unfolding compute_schema_id canonical_schema_string crc32
fits_id = omega arith

across_example :
    (m : Message) × IsSentAs lib words (some report) text m
    × (receive (json_of lib words) (register entries []) none packet
        ≡ published_by
            (json_of lib words)
            (known_key {A = Bytes} none)
            m
            (routes_of (topic_crc32 topic) entries))
across_example =
    receive-message_packet lib words entries topic text packet body 1 none (some report) topic_bytes
      body_bytes fits_id makes_body makes_packet

abbrev pub clear : MpubsubConfig
clear = record (loaded.mpubsub) { retransmit_count = pos 3; encryption_key = none }

handling_example :
    IsCarried
      (λ i. ltb i 2)
      topic
      (group, packet)
      (effective_retransmit_count clear.promote_qos (count_of clear.retransmit_count) 0)
      (handle_mqtt_message lib words clear (λ i. ltb i 2) topic group text 0 (some report) start)
handling_example =
    handle_mqtt_message-IsCarried lib words clear (λ i. ltb i 2) topic group text packet 0
      (some report) start started makes_packet
