-- ===== src/Proto.antt =====
-- bridges/mqtt-go/proto.go: the protobuf wire format of the bridge.
pub mod Varint
pub mod Zigzag
pub mod Value
pub mod Encode
pub mod Decode
pub mod Message
