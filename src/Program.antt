-- ===== src/Program.antt =====
-- bridges/mqtt-go/main.go: the level of the log, and the program up to the bridge's receive loop.
-- The file system, the YAML parser, SHA-256, the kernel and the broker are parameters.
pub mod Running
use esphome_mpubsub.Base.{ℕ, ℤ, Bytes, lit, ◌=ᵇ◌, if◌then◌else◌, Option, Result, ok, err, ◌>>=◌}
use esphome_mpubsub.Config.{Config, ConfigError}
use esphome_mpubsub.Config.Loading.{load_config}
use esphome_mpubsub.Socket.{Kernel, MulticastSocket}
use esphome_mpubsub.Bridge.Startup.{Broker, InitError, RunError, Started, sub_qos, new_bridge, run}

pub data Level : Type 0 where
  level_debug level_info level_warn level_error : Level

unfoldable pub log_level : Bytes → Level
log_level flag =
    if flag =ᵇ lit "debug"
    then level_debug
    else if flag =ᵇ lit "warn"
    then level_warn
    else if flag =ᵇ lit "error"
    then level_error
    else level_info

-- What main exits with status 1 for.
pub data Failure : Type 0 where
  load_config_failed : ConfigError → Failure
  bridge_init_failed : InitError → Failure
  bridge_run_failed : RunError → Failure

abbrev pub config_or : Result ConfigError Config → Result Failure Config
config_or (ok c) = ok c
config_or (err e) = err (load_config_failed e)

abbrev pub bridge_or : Result InitError (ℕ × MulticastSocket) → Result Failure (ℕ × MulticastSocket)
bridge_or (ok b) = ok b
bridge_or (err e) = err (bridge_init_failed e)

abbrev pub started_or : Result RunError Started → Result Failure Started
started_or (ok st) = ok st
started_or (err e) = err (bridge_run_failed e)

module _ (sha256 : Bytes → Bytes) (parse_duration : Bytes → Option ℤ)
    (read_file : Bytes → Result Bytes Bytes) (unmarshal : Bytes → Result Bytes Config)
    (kernel : Kernel) (broker : Broker) where
  unfoldable pub main : Bytes → Result Failure (Config × Started)
  main path = do
    cfg ← config_or (load_config sha256 parse_duration read_file unmarshal path)
    bridge ← bridge_or (new_bridge kernel cfg.mpubsub)
    st ← started_or (
        run kernel broker sha256 bridge.0 (sub_qos cfg.mpubsub.promote_qos cfg.mqtt.qos) cfg.bridges
          bridge.1)
    ok (cfg, st)
