-- ===== src/Embedded/Flush.antt =====
-- `FlushPendingChanges` and `handleReconnect` of the store over embedded DuckDB,
-- server/db/lance_cgo.go, without the drain of log entries and the snapshot that the second starts.
use rss_lance.Base.{ℕ, Bool, false, Option, none, some, ltb, if◌then◌else◌}
use rss_lance.WriteCache.{WriteCache, clear}
use rss_lance.Offline.{OfflineCache}
use rss_lance.Writer.{Lance}
use rss_lance.Replay.{replay}
use rss_lance.Embedded.{CgoStore}

-- An error of the replay clears nothing, and neither does a count of 0.
abbrev pub cleared : Option ℕ → WriteCache → WriteCache
cleared none c = c
cleared (some count) c = if ltb 0 count then clear c else c

abbrev pub back_online : Option OfflineCache → Option OfflineCache
back_online none = none
back_online (some oc) = some (record oc { is_offline = false })

module _ {lance : Lance} where
  unfoldable pub flush_cached :
      (ℕ → Bool) → ℕ → Option OfflineCache → CgoStore lance → CgoStore lance
  unfolding replay clear
  flush_cached duck now none s = s
  flush_cached duck now (some oc) s =
      let (count, oc', db') = replay lance duck now oc s.db in
      record { cache = cleared count s.cache; off_cache = some oc'; db = db' }

  unfoldable pub flush_pending_changes : (ℕ → Bool) → ℕ → CgoStore lance → CgoStore lance
  unfolding flush_cached
  flush_pending_changes duck now s = flush_cached duck now s.off_cache s

  unfoldable pub handle_reconnect : (ℕ → Bool) → ℕ → CgoStore lance → CgoStore lance
  unfolding flush_pending_changes
  handle_reconnect duck now s =
      let s' = flush_pending_changes duck now s in
      record s' { off_cache = back_online s'.off_cache }
