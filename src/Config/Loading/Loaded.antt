-- ===== src/Config/Loading/Loaded.antt =====
-- What LoadConfig promises of the configuration that it returns.
use esphome_mpubsub.Base.{ℤ, pos, ◌≡◌, ◌≢◌, ◌⊎◌, if◌then◌else◌}
use esphome_mpubsub.Base.{[], Bytes, lit, ◌=ᵇ◌, Option, none, some}
use esphome_mpubsub.Base.Maps.{bytes_eq}
use esphome_mpubsub.Config.{MqttConfig, MpubsubConfig, Config}
use esphome_mpubsub.Config.Defaults.{with_client_id}
use esphome_mpubsub.Config.Validation.Exact.{IsValid}
use esphome_mpubsub.Config.Loading.Resolved.{}
use esphome_mpubsub.Config.Loading.Translated.{IsTranslated}

-- The value of the file, or the default where the file has the zero value, and only there.
abbrev pub IsOrDefault {ℓ} : {A : Type ℓ} → A → A → A → A → Type ℓ
IsOrDefault none_given default raw x =
    ((raw ≢ none_given) × (x ≡ raw)) ⊎ ((raw ≡ none_given) × (x ≡ default))

abbrev pub IsOrOne : ℤ → ℤ → Type 0
IsOrOne = IsOrDefault (pos 0) (pos 1)

module _ (sha256 : Bytes → Bytes) (parse_duration : Bytes → Option ℤ) where
  -- The sections of a configuration against those of the file, `raw`: each setting with a default is
  -- the file's or the default, and every other setting is the file's.
  pub record IsFilled (raw : Config) (q : MqttConfig) (m : MpubsubConfig) : Type 0 where
    pub client : IsOrDefault [] (lit "mpubsub-bridge") raw.mqtt.client_id q.client_id
    pub port : IsOrDefault 0 18512 raw.mpubsub.port m.port
    pub scope : IsOrDefault [] (lit "link-local") raw.mpubsub.scope m.scope
    pub hops : IsOrOne raw.mpubsub.hops m.hops
    pub count : IsOrOne raw.mpubsub.retransmit_count m.retransmit_count
    pub delay :
        ((raw.mpubsub.retransmit_delay_raw ≡ []) × (m.retransmit_delay ≡ 100000000))
        ⊎ ((raw.mpubsub.retransmit_delay_raw ≢ [])
            × (parse_duration raw.mpubsub.retransmit_delay_raw ≡ some (pos m.retransmit_delay)))
    pub key : m.encryption_key ≡ (
        if raw.mpubsub.encryption.key =ᵇ [] then none else some (sha256 raw.mpubsub.encryption.key))
    pub mqtt_kept : q ≡ record raw.mqtt { client_id = q.client_id }
    pub mpubsub_kept : m ≡ record raw.mpubsub {
      port = m.port;
      scope = m.scope;
      hops = m.hops;
      retransmit_count = m.retransmit_count;
      retransmit_delay = m.retransmit_delay;
      encryption_key = m.encryption_key;
    }

  abbrev sections : Config → MpubsubConfig → Config
  sections raw m = record raw { mqtt = with_client_id raw.mqtt; mpubsub = m }

  -- The configuration that LoadConfig returns is valid, with every section filled and every entry
  -- that names a schema pointing to a schema made of the declaration with that id; it keeps the
  -- entries of the file.
  pub record IsLoaded (raw c : Config) : Type 0 where
    pub valid : IsValid c
    pub filled : IsFilled raw c.mqtt c.mpubsub
    pub translated : IsTranslated (sections raw c.mpubsub) c
