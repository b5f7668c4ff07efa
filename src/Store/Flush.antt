-- ===== src/Store/Flush.antt =====
-- `FlushPendingChanges` and `handleReconnect` of the store, without the drain of log entries, which
-- stands with the logs, and without the snapshot that `handleReconnect` starts in the background.
use rss_lance.Base.{ℕ, Bool, false, Option, none, some, ltb, if◌then◌else◌}
use rss_lance.WriteCache.{WriteCache, clear}
use rss_lance.Offline.{OfflineCache}
use rss_lance.Writer.{Lance}
use rss_lance.Replay.{replay}
use rss_lance.Store.{Store}

-- The overlay is cleared where some change was replayed.
abbrev pub clear_if_some : Option ℕ → WriteCache → WriteCache
clear_if_some none c = c
clear_if_some (some count) c = if ltb 0 count then clear c else c

module _ {lance : Lance} where
  unfoldable pub flush_with : (ℕ → Bool) → ℕ → Option OfflineCache → Store lance → Store lance
  unfolding replay clear
  flush_with duck now none s = s
  flush_with duck now (some oc) s =
      let (count, oc', db') = replay lance duck now oc s.db in
      record { cache = clear_if_some count s.cache; off_cache = some oc'; db = db' }

  unfoldable pub flush_pending_changes : (ℕ → Bool) → ℕ → Store lance → Store lance
  unfolding flush_with
  flush_pending_changes duck now s = flush_with duck now s.off_cache s

abbrev pub online : Option OfflineCache → Option OfflineCache
online none = none
online (some oc) = some (record oc { is_offline = false })

module _ {lance : Lance} where
  -- The flush, and then online again, whether the flush succeeded or not.
  unfoldable pub handle_reconnect : (ℕ → Bool) → ℕ → Store lance → Store lance
  unfolding flush_pending_changes
  handle_reconnect duck now s =
      let s' = flush_pending_changes duck now s in record s' { off_cache = online s'.off_cache }
