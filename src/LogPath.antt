-- ===== src/LogPath.antt =====
-- The way of a batch of log entries, server/db/lance_cli.go: to Lance, else to the local cache, else
-- back to the buffer; and the drain that moves the entries of the cache to Lance.
pub mod Tiers
pub mod Drain
pub mod Trim
use rss_lance.Base.{
  ℕ, String, List, [], ◌∷◌, ◌++◌, Bool, true, false, not, Option, none, some, ◌==◌, ltb,
  if◌then◌else◌, map, length,
}
use rss_lance.Types.{LogEntry}
use rss_lance.InfraRing
use rss_lance.InfraRing.{InfraRing}
use rss_lance.LogBuffer
use rss_lance.LogBuffer.{LogBuffer}
use rss_lance.Offline.{OfflineCache}
use rss_lance.Offline.Logs.{insert_logs, drain_logs, delete_logs, pending_log_count}
use rss_lance.Writer.{Lance}

-- What `InsertLogs` of the writer sends for an entry: a missing time becomes the clock's, and the
-- table has no column for the service.
abbrev time_or : Option ℕ → ℕ → ℕ
time_or none now = now
time_or (some t) now = t

abbrev pub row_of : ℕ → LogEntry → LogEntry
row_of now e = record e {
  timestamp = some (time_or e.timestamp now);
  service = "";
  created_at = some now;
}

-- What a batch of log entries passes through. `table_exists` is what `logAPITableExists` finds.
pub record LogPath (lance : Lance) : Type 0 where
  pub off_cache : Option OfflineCache
  pub infra : InfraRing
  pub db : lance.Db
  pub table_exists : Bool

-- The texts of the storage events, which quote errors.
pub record Messages : Type 0 where
  pub lance_failed : String
  pub diverted : String
  pub duck_failed : String
  pub drained : String

-- `InsertLogs` of the writer. Without a table it returns no error.
unfoldable pub write_logs : (lance : Lance) → ℕ → Bool → List LogEntry → lance.Db → Bool × lance.Db
write_logs lance now false entries db = (true, db)
write_logs lance now true [] db = (true, db)
write_logs lance now true (e ∷ es) db = lance.add_logs (map (row_of now) (e ∷ es)) db

module _ {lance : Lance} where
  -- The storage events go to the log once Lance takes entries again. What this write returns is not
  -- looked at.
  unfoldable pub drain_infra : ℕ → (ℕ → String) → LogPath lance → LogPath lance
  unfolding write_logs
  drain_infra now uuid p =
      if ltb 0 (InfraRing.pending p.infra)
      then (let (entries, ring) = InfraRing.drain uuid p.infra in
          record p { infra = ring; db = (write_logs lance now p.table_exists entries p.db).1 })
      else p

  abbrev event : String → String → ℕ → LogPath lance → LogPath lance
  event level message now p = record p { infra = InfraRing.add level message now p.infra }

  -- The second tier, behind a failed write to Lance.
  unfoldable pub divert :
      (ℕ → Bool)
      → ℕ
      → Messages
      → List LogEntry
      → Option OfflineCache
      → LogPath lance
      → Bool × LogPath lance
  unfolding insert_logs
  divert duck now messages entries none p = (false, p)
  divert duck now messages entries (some oc) p =
      let (ran, oc') = insert_logs duck entries oc in
      (
        ran,
        event (if ran then "warn" else "error")
            (if ran then messages.diverted else messages.duck_failed) now
            (record p { off_cache = some oc' }),
      )

  -- `flushLogs3Tier`: true where it returns no error. The signal to the drain goroutine is left out.
  unfoldable pub flush_logs_3_tier :
      (ℕ → Bool)
      → ℕ
      → (ℕ → String)
      → Messages
      → List LogEntry
      → LogPath lance
      → Bool × LogPath lance
  unfolding write_logs drain_infra divert
  flush_logs_3_tier duck now uuid messages entries p =
      let (written, db') = write_logs lance now p.table_exists entries p.db in
      if written
      then (true, drain_infra now uuid (record p { db = db' }))
      else divert duck now messages entries p.off_cache
          (event "error" messages.lance_failed now (record p { db = db' }))

  -- The drain of one batch, with a cache: each early return leaves the entries where they are.
  unfoldable pub drain_batch :
      (ℕ → Bool) → ℕ → ℕ → Messages → OfflineCache → LogPath lance → LogPath lance
  unfolding pending_log_count drain_logs write_logs delete_logs
  drain_batch duck batch_size now messages oc p =
      let (pending, oc1) = pending_log_count duck oc in
      let (read, entries, oc2) = drain_logs duck batch_size oc1 in
      let (written, db') = write_logs lance now p.table_exists entries p.db in
      let (deleted, oc3) = delete_logs duck (map (λ (e : LogEntry). e.log_id) entries) oc2 in
      if pending == 0
      then record p { off_cache = some oc1 }
      else if not read
      then record p { off_cache = some oc2 }
      else if length entries == 0
      then record p { off_cache = some oc2 }
      else if not written
      then record p { off_cache = some oc2; db = db' }
      else if not deleted
      then record p { off_cache = some oc3; db = db' }
      else event "info" messages.drained now (record p { off_cache = some oc3; db = db' })

  unfoldable pub drain_with :
      (ℕ → Bool) → ℕ → ℕ → Messages → Option OfflineCache → LogPath lance → LogPath lance
  unfolding drain_batch
  drain_with duck batch_size now messages none p = p
  drain_with duck batch_size now messages (some oc) p =
      drain_batch duck batch_size now messages oc p

  -- `drainCachedLogs`.
  unfoldable pub drain_cached_logs : (ℕ → Bool) → ℕ → ℕ → Messages → LogPath lance → LogPath lance
  unfolding drain_with
  drain_cached_logs duck batch_size now messages p =
      drain_with duck batch_size now messages p.off_cache p

-- `LogBufferStatus`.
pub record LogBufferStatus : Type 0 where
  pub memory_entries : ℕ
  pub duckdb_entries : ℕ
  pub infra_events : ℕ

cached_count : (ℕ → Bool) → Option OfflineCache → ℕ
unfolding pending_log_count
cached_count duck none = 0
cached_count duck (some oc) = (pending_log_count duck oc).0

-- `LogBufferStats`.
pub log_buffer_stats : {lance : Lance} → (ℕ → Bool) → LogBuffer → LogPath lance → LogBufferStatus
unfolding cached_count
log_buffer_stats duck lb p = record {
  memory_entries = LogBuffer.pending lb;
  duckdb_entries = cached_count duck p.off_cache;
  infra_events = InfraRing.pending p.infra;
}
