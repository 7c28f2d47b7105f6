-- ===== src/Program/Running.antt =====
-- The program once its bridge runs.

use esphome_mpubsub.Base.{
  if◌then◌else◌, ℕ, ℤ, ◌≡◌, ap, ◌∙◌, sym, arith, inl, inr, Bytes, Option, Result, ok, err,
  Result-cases, bind_ok, ok-injective,
}
use esphome_mpubsub.Wire.Address.{parse_scope}
use esphome_mpubsub.Config.{Config, ConfigError}
use esphome_mpubsub.Config.Loading.{load_config}
use esphome_mpubsub.Socket.{Kernel, SocketError, MulticastSocket, open_multicast_socket}
use esphome_mpubsub.Bridge.Startup.{
  RunError, InitError, Broker, Started, sub_qos, socket_or, new_bridge, run,
}
use esphome_mpubsub.Bridge.Startup.Registered.{IsRunning, run-IsRunning}
use esphome_mpubsub.Program.{config_or, bridge_or, started_or, main}

config_or_ok : (r : Result ConfigError Config) (c : Config) → config_or r ≡ ok c → r ≡ ok c
config_or_ok (ok x) c e = ap ok (ok-injective e)
config_or_ok (err x) c e = cc

bridge_or_ok :
    (r : Result InitError (ℕ × MulticastSocket)) (b : ℕ × MulticastSocket)
    → bridge_or r ≡ ok b
    → r ≡ ok b
bridge_or_ok (ok x) b e = ap ok (ok-injective e)
bridge_or_ok (err x) b e = cc

started_or_ok : (r : Result RunError Started) (st : Started) → started_or r ≡ ok st → r ≡ ok st
started_or_ok (ok x) st e = ap ok (ok-injective e)
started_or_ok (err x) st e = cc

module _ (kernel : Kernel) where
  socket_or_scope :
      (s n : ℕ) (r : Result SocketError MulticastSocket) (m : MulticastSocket)
      → socket_or s r ≡ ok (n, m)
      → s ≡ n
  socket_or_scope s n (ok x) m e = ground arith
  socket_or_scope s n (err x) m e = cc

  new_bridge-scope :
      (cfg : Config) (n : ℕ) (m : MulticastSocket)
      → new_bridge kernel cfg.mpubsub ≡ ok (n, m)
      → parse_scope cfg.mpubsub.scope ≡ ok n
  unfolding new_bridge
  new_bridge-scope cfg n m e = elim (Result-cases (parse_scope cfg.mpubsub.scope)) [
    | inr (x, bad) ↦ absurd (ground arith)
    | inl (s, good) ↦
        let opened = rw (new_bridge, good) at e in
        good ∙ ap ok (socket_or_scope s n (open_multicast_socket kernel cfg.mpubsub).1 m opened)
  ]

module _ (sha256 : Bytes → Bytes) (parse_duration : Bytes → Option ℤ)
    (read_file : Bytes → Result Bytes Bytes) (unmarshal : Bytes → Result Bytes Config)
    (kernel : Kernel) (broker : Broker) where
  main_steps :
      (path : Bytes) (cfg : Config) (st : Started)
      → main sha256 parse_duration read_file unmarshal kernel broker path ≡ ok (cfg, st)
      → (scope : ℕ) × (m : MulticastSocket) × (load_config sha256 parse_duration read_file unmarshal
            path
          ≡ ok cfg)
        × (new_bridge kernel cfg.mpubsub ≡ ok (scope, m))
        × (run kernel broker sha256 scope
              (sub_qos cfg.mpubsub.promote_qos cfg.mqtt.qos)
              cfg.bridges
              m
            ≡ ok st)
  unfolding main
  main_steps path cfg st e =
      let (c, loaded, e1) =
        bind_ok (config_or (load_config sha256 parse_duration read_file unmarshal path)) _ (cfg, st)
          e in
      let ((scope, m), made, e2) =
        bind_ok (bridge_or (new_bridge kernel c.mpubsub)) _ (cfg, st) e1 in
      let (s, ran, e3) =
        bind_ok
          (started_or
            (run kernel broker sha256 scope (sub_qos c.mpubsub.promote_qos c.mqtt.qos) c.bridges m))
          _ (cfg, st) e2 in
      let same : c ≡ cfg = ap (λ (x : Config × Started). x.0) (ok-injective e3) in
      let state : s ≡ st = ap (λ (x : Config × Started). x.1) (ok-injective e3) in
      (
        scope,
        m,
        config_or_ok _ cfg (loaded ∙ ap ok same),
        sym (ap (λ (x : Config). new_bridge kernel x.mpubsub) same)
            ∙ bridge_or_ok _ (scope, m) made,
        sym (
              ap
                (λ (x : Config).
                  run kernel broker sha256 scope (sub_qos x.mpubsub.promote_qos x.mqtt.qos)
                    x.bridges m)
                same)
            ∙ started_or_ok _ st (ran ∙ ap ok state),
      )

  -- When main gets to the receive loop, LoadConfig returned the configuration and its scope is
  -- known; the routes are those that its entries register; there is a subscription for each entry
  -- that leads away from MQTT, in their order, at QoS 2 with promote_qos and at the configured QoS
  -- without; for each entry that leads to MQTT, JoinGroup was called on the socket and succeeded, for
  -- the group of the entry's topic or for one that is written alike; and no two of the groups that
  -- it joined are written alike.
  pub main-IsRunning :
      (path : Bytes) (cfg : Config) (st : Started)
      → main sha256 parse_duration read_file unmarshal kernel broker path ≡ ok (cfg, st)
      → (load_config sha256 parse_duration read_file unmarshal path ≡ ok cfg)
        × (scope : ℕ) × (parse_scope cfg.mpubsub.scope ≡ ok scope)
        × IsRunning kernel broker sha256 scope
            (if cfg.mpubsub.promote_qos then 2 else cfg.mqtt.qos)
            cfg.bridges
            st
  unfolding sub_qos
  main-IsRunning path cfg st e =
      let (scope, m, loaded, made, ran) = main_steps path cfg st e in
      (
        loaded,
        scope,
        new_bridge-scope kernel cfg scope m made,
        run-IsRunning kernel broker sha256 scope (sub_qos cfg.mpubsub.promote_qos cfg.mqtt.qos)
            cfg.mpubsub cfg.bridges m st made ran,
      )
