-- ===== src/Socket/Opening.antt =====
-- The calls of OpenMulticastSocket and what it returns.
use esphome_mpubsub.Base.{
  ℕ, ◌≡◌, refl, ap, sym, ◌∙◌, arith, Bool, true, false, if◌then◌else◌, Result-cases, inl, inr,
}
use esphome_mpubsub.Base.{List, [], ◌∷◌, ◌++◌, Option, none, some, Result, ok, err}
use esphome_mpubsub.Config.{MpubsubConfig}
use esphome_mpubsub.Socket.{
  Call, listen, set_hop_limit, set_interface, enable_loopback, close, Kernel, SocketError,
  not_listening, hop_limit_refused, interface_refused, loopback_refused, MulticastSocket, Opened,
  configure, set_outgoing, open_on, choose_interface, open_multicast_socket,
}

-- Whether a connection is held after the calls, where one was `held` before.
abbrev pub stays_open : (Call → Bool) → Bool → List Call → Bool
stays_open accepts held [] = held
stays_open accepts held (listen p ∷ cs) = stays_open accepts (accepts (listen p)) cs
stays_open accepts held (close ∷ cs) = stays_open accepts false cs
stays_open accepts held (c ∷ cs) = stays_open accepts held cs

abbrev pub succeeded : Result SocketError MulticastSocket → Bool
succeeded (ok a) = true
succeeded (err e) = false

abbrev pub outgoing : Option ℕ → List Call
outgoing none = []
outgoing (some i) = set_interface i ∷ []

-- The calls that set up a connection for an interface.
abbrev pub setup : MpubsubConfig → Option ℕ → List Call
setup cfg iface = listen cfg.port ∷ set_hop_limit cfg.hops ∷ outgoing iface ++ enable_loopback ∷ []

-- The calls up to the first that is refused.
abbrev pub tried : (Call → Bool) → List Call → List Call
tried accepts [] = []
tried accepts (c ∷ cs) = let rest = tried accepts cs in if accepts c then c ∷ rest else c ∷ []

abbrev pub refused_call : (Call → Bool) → List Call → Option Call
refused_call accepts [] = none
refused_call accepts (c ∷ cs) =
    let next = refused_call accepts cs in if accepts c then next else some c

-- The connection is closed again where a later call than the first is refused.
abbrev pub closing : Option Call → List Call
closing none = []
closing (some (listen p)) = []
closing (some c) = close ∷ []

abbrev pub error_of : Call → SocketError
error_of (listen p) = not_listening p
error_of (set_hop_limit n) = hop_limit_refused
error_of (set_interface i) = interface_refused
error_of c = loopback_refused

abbrev pub answer : MulticastSocket → Option Call → Result SocketError MulticastSocket
answer m none = ok m
answer m (some c) = err (error_of c)

-- What OpenMulticastSocket makes of the interface it chose.
abbrev pub IsOpened : Kernel → MpubsubConfig → Result SocketError (Option ℕ) → Opened → Type 0
IsOpened k cfg (err e) out = (out.0 ≡ []) × (out.1 ≡ err e)
IsOpened k cfg (ok iface) out =
    let refused = refused_call k.accepts (setup cfg iface) in
    (out.0 ≡ tried k.accepts (setup cfg iface) ++ closing refused)
    × (out.1 ≡ answer (record { iface = iface; port = cfg.port; joined = []; calls = [] }) refused)

open_on-IsOpened :
    (k : Kernel) (cfg : MpubsubConfig) (iface : Option ℕ)
    → IsOpened k cfg (ok iface) (open_on k cfg iface)
      × (stays_open k.accepts false (open_on k cfg iface).0 ≡ succeeded (open_on k cfg iface).1)
unfolding open_on configure set_outgoing
open_on-IsOpened k cfg none = ground arith
open_on-IsOpened k cfg (some i) = ground arith

-- OpenMulticastSocket makes its calls in order (listen, the hop limit, the interface where one is
-- configured, loopback) up to the first that is refused, and returns that call's error, or a socket
-- that has joined no group; it makes none where the interface is not found. A connection is open in
-- the end exactly where a socket is returned.
pub open_multicast_socket-IsOpened :
    (k : Kernel) (cfg : MpubsubConfig)
    → let out = open_multicast_socket k cfg in
      IsOpened k cfg (choose_interface k cfg.interface) out
      × (stays_open k.accepts false out.0 ≡ succeeded out.1)
unfolding open_multicast_socket
open_multicast_socket-IsOpened k cfg = elim (Result-cases (choose_interface k cfg.interface)) [
  | inr (e, bad) ↦ rw (open_multicast_socket, bad) ((refl, refl), refl)
  | inl (iface, good) ↦ rw (open_multicast_socket, good) (open_on-IsOpened k cfg iface)
]

answer_ok : (m0 m : MulticastSocket) (refused : Option Call) → answer m0 refused ≡ ok m → m0 ≡ m
answer_ok m0 m none e = ground arith
answer_ok m0 m (some c) e = cc

-- The socket that is returned has joined no group.
pub open_multicast_socket_fresh :
    (k : Kernel) (cfg : MpubsubConfig) (m : MulticastSocket)
    → (open_multicast_socket k cfg).1 ≡ ok m
    → (m.calls ≡ []) × (m.joined ≡ [])
open_multicast_socket_fresh k cfg m e =
    let (opened, held) = open_multicast_socket-IsOpened k cfg in
    go (choose_interface k cfg.interface) opened
  where
    go :
        (r : Result SocketError (Option ℕ))
        → IsOpened k cfg r (open_multicast_socket k cfg)
        → (m.calls ≡ []) × (m.joined ≡ [])
    go (err x) (none_made, failed) = absurd (ground arith)
    go (ok iface) (made, answered) =
        let start : MulticastSocket = record {
          iface = iface;
          port = cfg.port;
          joined = [];
          calls = [];
        } in
        let same =
          answer_ok start m (refused_call k.accepts (setup cfg iface)) (sym answered ∙ e) in
        (
          sym (ap (λ (n : MulticastSocket). n.calls) same),
          sym (ap (λ (n : MulticastSocket). n.joined) same),
        )
