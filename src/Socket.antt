-- ===== src/Socket.antt =====
-- bridges/mqtt-go/mcast.go: opening the socket and joining groups, with the calls of the kernel that
-- they make. What the kernel answers is a parameter.
pub mod Opening
pub mod Joining
use esphome_mpubsub.Base.{ℕ, ℤ, Bool, true, false, not, if◌then◌else◌}
use esphome_mpubsub.Base.{List, [], ◌∷◌, Bytes, ◌=ᵇ◌, Option, none, some, Result, ok, err}
use esphome_mpubsub.Base.Maps.{bytes_eq, lookup, insert}
use esphome_mpubsub.Config.{MpubsubConfig}

-- The calls on the socket. `listen` is ListenPacket with its Control function, which returns no
-- connection where SO_REUSEPORT cannot be set.
pub data Call : Type 0 where
  listen : ℕ → Call
  set_hop_limit : ℤ → Call
  set_interface : ℕ → Call
  enable_loopback close : Call

-- `find_interface` is net.InterfaceByName, with the interface's index; `accepts` is whether a call
-- succeeds; `joins` is whether JoinGroup does, for an interface and a group; `text` is String of a
-- net.IP.
pub record Kernel : Type 0 where
  pub find_interface : Bytes → Option ℕ
  pub accepts : Call → Bool
  pub joins : Option ℕ → Bytes → Bool
  pub text : Bytes → Bytes

pub data SocketError : Type 0 where
  no_interface : Bytes → SocketError
  not_listening : ℕ → SocketError
  hop_limit_refused interface_refused loopback_refused : SocketError
  join_refused : Bytes → SocketError

-- `calls` are the groups that JoinGroup joined, the last one first.
pub record MulticastSocket : Type 0 where
  pub iface : Option ℕ
  pub port : ℕ
  pub joined : List (Bytes × Bytes)
  pub calls : List Bytes

-- The calls that were made, and what is returned.
abbrev pub Opened : Type 0
Opened = List Call × Result SocketError MulticastSocket

module _ (k : Kernel) where
  unfoldable pub choose_interface : Bytes → Result SocketError (Option ℕ)
  choose_interface name =
      if name =ᵇ []
      then ok none
      else elim (k.find_interface name) [ none ↦ err (no_interface name) | some i ↦ ok (some i) ]

  -- A call on a connection that is closed again where the call fails.
  unfoldable pub configure : Call → SocketError → Opened → Opened
  configure call e next =
      if k.accepts call then (call ∷ next.0, next.1) else (call ∷ close ∷ [], err e)

  unfoldable pub set_outgoing : Option ℕ → Opened → Opened
  set_outgoing none next = next
  set_outgoing (some i) next = configure (set_interface i) interface_refused next

  unfoldable pub open_on : MpubsubConfig → Option ℕ → Opened
  open_on cfg iface =
      let socket : MulticastSocket = record {
        iface = iface;
        port = cfg.port;
        joined = [];
        calls = [];
      } in
      let loopback = configure enable_loopback loopback_refused ([], ok socket) in
      let conn =
        configure (set_hop_limit cfg.hops) hop_limit_refused (set_outgoing iface loopback) in
      if not (k.accepts (listen cfg.port))
      then (listen cfg.port ∷ [], err (not_listening cfg.port))
      else (listen cfg.port ∷ conn.0, conn.1)

  unfoldable pub open_multicast_socket : MpubsubConfig → Opened
  open_multicast_socket cfg = elim (choose_interface cfg.interface) [
    | err e ↦ ([], err e)
    | ok iface ↦ open_on cfg iface
  ]

  unfoldable pub join : Bytes → MulticastSocket → Result SocketError MulticastSocket
  join group m =
      let key = k.text group in
      elim (lookup key m.joined) [
        | some g ↦ ok m
        | none ↦
            if not (k.joins m.iface group)
            then err (join_refused key)
            else ok (record {
              iface = m.iface;
              port = m.port;
              joined = insert key group m.joined;
              calls = group ∷ m.calls;
            })
      ]
