-- ===== src/Wire.antt =====
-- bridges/mqtt-go/wire.go: the cipher, the datagram and the multicast address.
pub mod Words
pub mod Xxtea
pub mod Crc32
pub mod Packet
pub mod Address
