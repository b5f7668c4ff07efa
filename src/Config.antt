-- ===== src/Config.antt =====
-- The numbers in the settings table: `settingInt` and `loadLogBufferConfig` of server/db/store.go,
-- `DefaultOfflineConfig` and `loadOfflineConfig` of server/db/offline_cache.go. `trim_quotes` stands for
-- strings.Trim of double quotes, and `atoi` for strconv.Atoi (none is its error): they are Go's library.
pub mod LogBufferSettings
use rss_lance.Base.{ℕ, String, Option, none, some, ◌=str◌, if◌then◌else◌}
use rss_lance.Base.Assoc.{Assoc, lookup}
use rss_lance.Base.Int.{ℤ, pos, negsuc}
use rss_lance.LogBuffer.{LogBufferConfig, default_log_buffer_config}
use rss_lance.Offline.{OfflineConfig}

-- The test of what `Atoi` returns.
int_or : ℕ → Option ℤ → ℕ
int_or def none = def
int_or def (some (negsuc n)) = def
int_or def (some (pos n)) = n

-- `DefaultOfflineConfig`.
abbrev pub default_offline_config : OfflineConfig
default_offline_config = record {
  snapshot_interval_mins = 10;
  article_days = 7;
  cache_path = "./data/offline_cache.db";
}

module _ (trim_quotes : String → String) (atoi : String → Option ℤ) where
  value_or : ℕ → Option String → ℕ
  unfolding int_or
  value_or def none = def
  value_or def (some v) = if v =str "" then def else int_or def (atoi (trim_quotes v))

  -- `settingInt`.
  unfoldable pub setting_int : Assoc String → String → ℕ → ℕ
  unfolding value_or lookup
  setting_int settings key def = value_or def (lookup key settings)

  -- `loadLogBufferConfig`.
  unfoldable pub load_log_buffer_config : Assoc String → LogBufferConfig
  unfolding setting_int
  load_log_buffer_config settings = record {
    flush_threshold =
        setting_int settings "log_buffer.flush_threshold" default_log_buffer_config.flush_threshold;
    flush_interval_secs =
        setting_int settings "log_buffer.flush_interval_secs"
          default_log_buffer_config.flush_interval_secs;
    memory_cap = setting_int settings "log_buffer.memory_cap" default_log_buffer_config.memory_cap;
  }

  path_or : String → Option String → String
  path_or def none = def
  path_or def (some v) = if trim_quotes v =str "" then def else trim_quotes v

  -- `loadOfflineConfig`.
  unfoldable pub load_offline_config : Assoc String → OfflineConfig
  unfolding setting_int path_or lookup
  load_offline_config settings = record {
    snapshot_interval_mins =
        setting_int settings "offline_snapshot_interval_mins"
          default_offline_config.snapshot_interval_mins;
    article_days = setting_int settings "offline_article_days" default_offline_config.article_days;
    cache_path = path_or default_offline_config.cache_path (lookup "offline_cache_path" settings);
  }
