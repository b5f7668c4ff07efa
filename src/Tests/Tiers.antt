-- ===== src/Tests/Tiers.antt =====
-- A batch of log entries with Lance up and a local cache, and the drain of a cached entry.
use rss_lance.Base.{ℕ, String, List, [], ◌∷◌, true, some}
use rss_lance.Base.Int.{pos}
use rss_lance.Types.{LogEntry}
use rss_lance.InfraRing.{new_infra_ring}
use rss_lance.Offline.{new_offline_cache}
use rss_lance.LogPath.{LogPath, Messages}
use rss_lance.Tests.Data.{list_lance, two_articles, entry}

abbrev pub uuid : ℕ → String
uuid n = "id"

abbrev pub messages : Messages
messages = record {
  lance_failed = "lance";
  diverted = "diverted";
  duck_failed = "duck";
  drained = "drained";
}

abbrev pub path : LogPath list_lance
path = record {
  off_cache = some (record new_offline_cache { cached_logs = entry "1" ∷ [] });
  infra = new_infra_ring (pos 3);
  db = two_articles;
  table_exists = true;
}

abbrev batch : List LogEntry
batch = entry "2" ∷ entry "3" ∷ []
