-- ===== src/Config/Loading.antt =====
-- LoadConfig of config.go. The file system and the YAML parser are parameters.
pub mod Resolved
pub mod Translated
pub mod Loaded
use esphome_mpubsub.Base.{ℤ, Bytes, Option, Result, ok, err, ◌>>=◌}
use esphome_mpubsub.Config.{Config, ConfigError, unreadable, unparsable}
use esphome_mpubsub.Config.Defaults.{apply_defaults}
use esphome_mpubsub.Config.Validation.{validate}

abbrev pub readable : Result Bytes Bytes → Result ConfigError Bytes
readable (ok content) = ok content
readable (err e) = err (unreadable e)

abbrev pub parsed : Result Bytes Config → Result ConfigError Config
parsed (ok c) = ok c
parsed (err e) = err (unparsable e)

module _ (sha256 : Bytes → Bytes) (parse_duration : Bytes → Option ℤ)
    (read_file : Bytes → Result Bytes Bytes) (unmarshal : Bytes → Result Bytes Config) where
  unfoldable pub load_config : Bytes → Result ConfigError Config
  load_config path = do
    content ← readable (read_file path)
    c ← parsed (unmarshal content)
    c' ← apply_defaults sha256 parse_duration c
    _ ← validate c'
    ok c'
