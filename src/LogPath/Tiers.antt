-- ===== src/LogPath/Tiers.antt =====
-- Where a flushed batch of log entries is after `flushLogs3Tier`.
use rss_lance.Base.{
  ℕ, String, List, [], ◌∷◌, ◌++◌, Bool, true, Option, none, some, ◌≡◌, refl, sym, if◌then◌else◌,
  ◌=str◌, map, append-nil,
}
use rss_lance.Types.{LogEntry}
use rss_lance.InfraRing
use rss_lance.Offline.{OfflineCache}
use rss_lance.Offline.Logs.{upsert_logs}
use rss_lance.Writer.{Lance}
use rss_lance.LogPath.{LogPath, Messages, row_of, write_logs}

-- The entries that wait in the local cache.
abbrev pub cached_of : Option OfflineCache → List LogEntry
cached_of none = []
cached_of (some oc) = oc.cached_logs

pub logs-write_logs :
    (lance : Lance) (now : ℕ) (es : List LogEntry) (db : lance.Db)
    → lance.logs (write_logs lance now true es db).1 ≡ (
        if (write_logs lance now true es db).0
        then lance.logs db ++ map (row_of now) es
        else lance.logs db)
unfolding write_logs
logs-write_logs lance now [] db = sym (append-nil _)
logs-write_logs lance now (e ∷ es) db = lance.logs-add_logs (map (row_of now) (e ∷ es)) db

upsert_logs-nil : (es : List LogEntry) → upsert_logs es [] ≡ es
unfolding upsert_logs
upsert_logs-nil es = refl

-- The last entry with an id.
abbrev latest : Option LogEntry → Option LogEntry → Option LogEntry
latest none o = o
latest (some e) o = some e

pub last_with : String → List LogEntry → Option LogEntry
last_with x [] = none
last_with x (e ∷ es) = latest (last_with x es) (if e.log_id =str x then some e else none)

-- The table of the local cache has no column for the service.
abbrev pub without_service : LogEntry → LogEntry
without_service e = record e { service = "" }

module _ {lance : Lance} (duck : ℕ → Bool) (now : ℕ) (uuid : ℕ → String) (messages : Messages)
    (entries : List LogEntry) (p : LogPath lance) where
  -- Lance has the whole batch, behind what it had and before the storage events that follow it.
  pub record InLance (q : LogPath lance) : Type 0 where
    pub extra : List LogEntry
    pub logged : lance.logs q.db ≡ (lance.logs p.db ++ map (row_of now) entries) ++ extra
    pub cache_kept : cached_of q.off_cache ≡ cached_of p.off_cache

  -- The local cache has the batch behind what it had, of several entries with one id the last, and Lance
  -- has nothing new.
  pub record InCache (q : LogPath lance) : Type 0 where
    pub not_logged : lance.logs q.db ≡ lance.logs p.db
    pub cached :
        (x : String)
        → last_with x (cached_of q.off_cache)
          ≡ last_with x (cached_of p.off_cache ++ map without_service entries)

  -- Nothing is stored anywhere.
  pub record Nowhere (q : LogPath lance) : Type 0 where
    pub not_logged : lance.logs q.db ≡ lance.logs p.db
    pub not_cached : cached_of q.off_cache ≡ cached_of p.off_cache
