-- ===== src/Lib.antt =====
-- The MQTT bridge of mpubsub (bridges/mqtt-go), a Go program that mirrors messages between an MQTT
-- broker and IPv6 multicast groups, and the ESPHome component (components/mpubsub) that it talks to.
--
-- bridges/mqtt-go/wire.go is Wire: Wire.Xxtea has the cipher (xxteaEncrypt, xxteaDecrypt, one
-- function for each loop), Wire.Words the uint32 and byte order helpers, Wire.Packet the datagram
-- (EncodePacket, DecodePacket), Wire.Address the scope and the group (ParseScope, TopicToGroup) and
-- Wire.Crc32 the checksum of Go's standard library, bit by bit.
-- bridges/mqtt-go/schema.go is Schema (NewSchema, canonicalSchemaString, computeSchemaID), and
-- bridges/mqtt-go/proto.go is Proto: Proto.Varint, Proto.Zigzag, Proto.Value (wireTypeFor, toInt64,
-- toUint64, toFloat64, appendValue, decodeValue), Proto.Encode (EncodeProto), Proto.Decode
-- (DecodeProto, skipField), and Proto.Message, which describes the bytes of a message apart from the
-- code. EncodeProto and DecodeProto take a schema that NewSchema made, and the body of a datagram of
-- Wire.Packet carries what they write and read. bridges/mqtt-go/json_proto.go is Json (JSONToProto,
-- jsonValueToGo, jsonScalarToGo, ProtoToJSON, goValueToJSON, goScalarToJSON), on top of both.
--
-- bridges/mqtt-go/config.go is Config: the records, Config.Defaults (applyDefaults), Config.Validation
-- (validate) and Config.Loading (LoadConfig). bridges/mqtt-go/mcast.go is Socket: OpenMulticastSocket as
-- the list of its calls of the kernel and what it returns, and Join on the table of joined groups.
--
-- bridges/mqtt-go/bridge.go is Bridge: the routes and a round of mcastReceiveLoop, with DecodePacket and
-- the list of what is published to MQTT; Bridge.Startup, which is NewBridge and Run up to the receive
-- loop, over Socket and what the broker answers; Bridge.Handling, which is handleMQTTMessage with the
-- packet it makes (JSONToProto, EncodePacket), the datagrams that SendTo is given and
-- scheduleFiniteRetransmits; and Bridge.Retransmission, the state of the indefinite jobs as
-- handleMQTTMessage, cancelIndefinite, startIndefinite and the shutdown in Run change it. In these each
-- call runs to its end, and a send is only whether it succeeds. Bridge.System puts them side by side:
-- its state has the jobs and their goroutines, where the handler, the receive loop and Run are, what the
-- broker delivered, what was read, and what went out; its steps, in Bridge.System.Steps, are those of
-- the handler (HandlerStep), of the goroutines that send again (ResendStep), of Run as it stops (RunStep)
-- and of mcastReceiveLoop (ReceiveStep), in any order. A message from the broker, for one of the
-- subscriptions, the bytes of a Read, the failure of a call and the end of the context may come at any
-- time. A publish is what b.mqtt.Publish is given, as its bytes are at the call: the payload of a packet
-- in the clear is a slice of the read buffer there, which a later Read may change before paho has written
-- it, and that is outside of the steps. The receive loop takes ProtoToJSON as a parameter, which Bridge.Handling.Across
-- gives it from Json. bridges/mqtt-go/main.go is Program: the
-- log level, and LoadConfig, NewBridge and Run in a row. Base holds what all share; Tests holds runs
-- and instances.
--
-- components/mpubsub is Node, the firmware's side on the platforms with sockets: Node.Topic
-- (topic_hash.cpp), Node.Format (wire_format.h, wire_format.cpp), Node itself (the state of
-- MulticastPubSub, setup, subscribe, deliver_, on_packet_), Node.Sending (publish, publish_dynamic),
-- Node.Sha256 (sha256.cpp), Node.Timers (schedule_retransmits_, cancel_indefinite_retransmit_) and Node.Subscriptions, the table
-- over the life of a node. Node.Interop sets it beside Wire and
-- Bridge, and Node.Interop.Callbacks says which callbacks a payload is for. ESPHome's cipher is the record
-- Cipher, of which Node.Interop asks that it is the one of wire.go, as docs/PROTOCOL.md says, and the
-- digest of a topic is a parameter here too, which Node.Sha256 can fill; calls of
-- ESPHome's scheduler are listed as they are made, and a callback is its number.
--
-- A byte is a number below 256, a byte slice and a Go string are the list of their bytes, a nil
-- slice is `none` where the code tells it apart. Words are numbers with their wrap-around written
-- out, and a signed number is its two's complement pattern. A call that returns an error returns a
-- Result, with one constructor for each error. The slice that the cipher changes in place is
-- returned. Maps are association lists. Loops over slices and counted loops are structural, and
-- appendVarint's loop recurs on its number. Three things run on fuel: the decimal print of a uint32,
-- with ten rounds for its ten digits at most, and the loop of DecodeProto, with a round for each byte
-- of the body, of which every round takes two at least or ends the loop; and the loop of update in
-- sha256.cpp, with a round for each byte, of which every round takes one at least.
--
-- A float is its IEEE pattern, and Go's conversions and tests of floats are the fields of the record
-- Floats, a parameter. SHA-256 is a parameter, of which only the length of its result is used, and
-- so are the file system, the YAML parser, time.ParseDuration, encoding/json, base64, the kernel and
-- the broker. What is asked of them is named where it is used: a float converted to an integer gives a
-- pattern of its width, base64 text is no shorter than what it decodes to, and the YAML parser leaves
-- the fields that have no YAML key unset. A duration is its nanoseconds, and an int that the file may
-- give a sign is the ℤ of Base.Int.
--
-- Not modelled: the time between two sends, and two handlers at once, which paho has only where
-- SetOrderMatters is off; the MQTT client, the parsing of flags and the log; of the firmware its
-- branch for ESP8266, the loop of reads, the sensors, and dynamic_message.cpp; and the Python
-- of ESPHome's build.
pub mod Base
pub mod Wire
pub mod Schema
pub mod Proto
pub mod Json
pub mod Config
pub mod Socket
pub mod Bridge
pub mod Program
pub mod Node
mod Tests
