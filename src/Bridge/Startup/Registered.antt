-- ===== src/Bridge/Startup/Registered.antt =====
-- What Run has set up when its receive loop starts.
use mathlib.Core.Path.{subst}
use esphome_mpubsub.Base.{ℕ, ◌≡◌, ap, sym, arith, Bool-cases, inl, inr}
use esphome_mpubsub.Base.{List, [], Bytes, All, Result, ok, err, Result-cases}
use esphome_mpubsub.Base.Maps.{bytes_eq, lookup}
use esphome_mpubsub.Wire.Address.{parse_scope}
use esphome_mpubsub.Config.{MpubsubConfig, BridgeEntry}
use esphome_mpubsub.Socket.{Kernel, SocketError, MulticastSocket, open_multicast_socket}
use esphome_mpubsub.Socket.Opening.{open_multicast_socket_fresh}
use esphome_mpubsub.Socket.Joining.{IsSocket, IsListed, IsOnce}
use esphome_mpubsub.Bridge.{register}
use esphome_mpubsub.Bridge.Startup.{Broker, Started, run, socket_or, new_bridge}
use esphome_mpubsub.Bridge.Startup.Entries.{Hears, subscriptions_of, start_entries-IsStarted}

module _ (k : Kernel) (broker : Broker) (sha256 : Bytes → Bytes) (scope qos : ℕ) where
  -- What Run has made of its entries.
  pub record IsRunning (es : List BridgeEntry) (st : Started) : Type 0 where
    pub routes : st.crc_to_mqtt ≡ register es []
    pub subscribed : st.subscriptions ≡ subscriptions_of qos es
    pub socket : IsSocket k st.socket
    pub heard : All (λ e. Hears k broker sha256 scope qos st.socket e.direction e) es

  -- A socket that has joined no group.
  fresh-IsSocket : (m : MulticastSocket) → m.calls ≡ [] → m.joined ≡ [] → IsSocket k m
  unfolding lookup
  fresh-IsSocket m e e' = record {
    listed = subst (λ (cs : List Bytes). All (IsListed k m) cs) (sym e) tt;
    once = subst (IsOnce k) (sym e) tt;
    called = λ t g there. absurd (cc (ap (λ (x : List (Bytes × Bytes)). lookup t x) e'));
  }

  socket_or_ok :
      (scope' n : ℕ) (r : Result SocketError MulticastSocket) (m : MulticastSocket)
      → socket_or scope' r ≡ ok (n, m)
      → r ≡ ok m
  socket_or_ok scope' n (ok x) m e = ground arith
  socket_or_ok scope' n (err x) m e = cc

  new_bridge-IsSocket :
      (cfg : MpubsubConfig) (n : ℕ) (m : MulticastSocket)
      → new_bridge k cfg ≡ ok (n, m)
      → IsSocket k m
  unfolding new_bridge
  new_bridge-IsSocket cfg n m e = elim (Result-cases (parse_scope cfg.scope)) [
    | inr (x, bad) ↦ absurd (ground arith)
    | inl (s, good) ↦
        let opened : socket_or s (open_multicast_socket k cfg).1 ≡ ok (n, m) =
          rw (new_bridge, good) at e in
        let returned = socket_or_ok s n (open_multicast_socket k cfg).1 m opened in
        let (no_calls, none_joined) = open_multicast_socket_fresh k cfg m returned in
        fresh-IsSocket m no_calls none_joined
  ]

  -- When Run starts its receive loop on the socket that NewBridge opened, its routes are those that
  -- the entries register; its subscriptions are those of the entries that lead away from MQTT, in
  -- their order; for each entry that leads to MQTT, JoinGroup was called on the socket and succeeded,
  -- for the group of the entry's topic or for one that is written alike; and no two of the groups
  -- that it joined are written alike.
  pub run-IsRunning :
      (cfg : MpubsubConfig) (es : List BridgeEntry) (m : MulticastSocket) (st : Started)
      → new_bridge k cfg ≡ ok (scope, m)
      → run k broker sha256 scope qos es m ≡ ok st
      → IsRunning es st
  unfolding run
  run-IsRunning cfg es m st made done =
      let h = new_bridge-IsSocket cfg scope m made in
      elim (Bool-cases broker.connects) [
        | inr refused ↦ absurd (ground arith)
        | inl connected ↦
            let s =
              start_entries-IsStarted k broker sha256 scope qos es
                (record { subscriptions = []; socket = m; crc_to_mqtt = [] }) st h (ground arith) in
            record {
              routes = s.routes;
              subscribed = s.subscribed;
              socket = s.socket;
              heard = s.heard;
            }
      ]
