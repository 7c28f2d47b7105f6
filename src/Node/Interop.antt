-- ===== src/Node/Interop.antt =====
-- The firmware and the bridge: the same datagrams, read in the same way.
pub mod Framing
pub mod Callbacks
pub mod Sent
pub mod Heard
pub mod Across
use esphome_mpubsub.Base.{
  ℕ, ◌+◌, ◌-◌, ◌*◌, ◌/◌, ◌%◌, ◌^◌, ◌≤◌, ◌≡◌, refl, arith, ltb, if◌then◌else◌,
}
use esphome_mpubsub.Base.{List, Bytes, length, All, IsByte, Option, none, some}
use esphome_mpubsub.Wire.Words.{IsU32}
use esphome_mpubsub.Wire.Xxtea.{xxtea_encrypt, xxtea_decrypt}
use esphome_mpubsub.Wire.Packet
use esphome_mpubsub.Node.{Cipher, Node}
use esphome_mpubsub.Node.Format

-- ESPHome's cipher is the one of bridges/mqtt-go/wire.go, on two words at least and a key of eight.
pub record IsXxtea (cipher : Cipher) : Type 0 where
  pub encrypts :
      (v k : List ℕ)
      → 2 ≤ length v
      → length k ≡ 8
      → All IsU32 v
      → All IsU32 k
      → cipher.encrypt v k ≡ xxtea_encrypt v k
  pub decrypts :
      (v k : List ℕ)
      → 2 ≤ length v
      → length k ≡ 8
      → All IsU32 v
      → All IsU32 k
      → cipher.decrypt v k ≡ xxtea_decrypt v k

-- The field for the key holds 32 bytes, whether it is in use or not.
abbrev pub HasKeyField : Node → Type 0
HasKeyField node = (length node.encryption_key_bytes ≡ 32) × All IsByte node.encryption_key_bytes

abbrev pub key_of : Node → Option Bytes
key_of node = if node.encryption_enabled then some node.encryption_key_bytes else none

pub ciphertext_len_lem : (n : ℕ) → Format.xxtea_ciphertext_len n ≡ Packet.xxtea_ciphertext_len n
unfolding Format.xxtea_ciphertext_len Packet.xxtea_ciphertext_len
ciphertext_len_lem n = refl
