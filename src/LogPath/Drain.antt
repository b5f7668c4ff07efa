-- ===== src/LogPath/Drain.antt =====
-- The drain of the cached log entries to Lance, `drainCachedLogs`: no entry is lost on the way.
use rss_lance.Base.{ℕ, String, List, [], ◌∷◌, ◌≡◌, map, ◌⊎◌}
use rss_lance.Types.{LogEntry}
use rss_lance.Writer.{Lance}
use rss_lance.LogPath.{LogPath, row_of}
use rss_lance.LogPath.Tiers.{cached_of}

abbrev pub ids : List LogEntry → List String
ids = map (λ (e : LogEntry). e.log_id)

-- The entry is one of the list.
abbrev pub In : LogEntry → List LogEntry → Type 0
In e [] = ⊥
In e (x ∷ xs) = (e ≡ x) ⊎ In e xs

-- The table of the local cache has its id as primary key.
abbrev pub HasKey : List LogEntry → Type 0
HasKey table = (a b : LogEntry) → In a table → In b table → a.log_id ≡ b.log_id → a ≡ b

-- The entry, as the log table has it, is in Lance, or it waits in the cache.
abbrev pub Kept : {lance : Lance} → ℕ → LogEntry → LogPath lance → Type 0
Kept {lance} now e q = In e (cached_of q.off_cache) ⊎ In (row_of now e) (lance.logs q.db)
