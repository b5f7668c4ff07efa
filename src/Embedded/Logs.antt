-- ===== src/Embedded/Logs.antt =====
-- `GetLogs` in the store over embedded DuckDB, server/db/lance_cgo.go. The functions that a batch of
-- log entries passes through are the same there as in the store over the CLI.
use rss_lance.Base.{
  ℕ, ◌+◌, String, List, [], ◌++◌, Bool, not, ◌&&◌, ◌||◌, Option, none, some, ◌=str◌, if◌then◌else◌,
  keep_if, map, length, take, drop,
}
use rss_lance.Types.{LogEntry}
use rss_lance.LogBuffer.{LogBuffer, flush}
use rss_lance.LogPath.{LogPath, Messages, flush_logs_3_tier}
use rss_lance.LogReads.{
  LogQuery, LogAnswer, log_page, no_page, wraps, limit_of, asks, from_start, to_end, has_rows,
  has_source, cached_entries, merge_page,
}
use rss_lance.Offline.{sort_by, after}
use rss_lance.Writer.{Lance}
use rss_lance.Embedded.Rows.{is_text, scan_all, ◌>>=◌}

-- The columns of the union of the log tables; the service is a literal of the query.
pub record LogRow : Type 0 where
  pub log_id : Option String
  pub timestamp : Option ℕ
  pub level : Option String
  pub category : Option String
  pub service : String
  pub message : Option String
  pub details : Option String
  pub created_at : Option ℕ

unfoldable pub scan_log : LogRow → Option LogEntry
scan_log r = do
  log_id ← r.log_id
  level ← r.level
  category ← r.category
  message ← r.message
  details ← r.details
  some (record {
    log_id = log_id;
    timestamp = r.timestamp;
    level = level;
    category = category;
    service = r.service;
    message = message;
    details = details;
    created_at = r.created_at;
  })

-- The conditions of the query.
abbrev pub meets : LogQuery → LogRow → Bool
meets opts r =
    ((opts.level =str "" || is_text r.level opts.level)
      && (opts.category =str "" || is_text r.category opts.category))
    && (from_start opts.start_time r.timestamp && to_end opts.end_time r.timestamp)

abbrev pub newest_rows : List LogRow → List LogRow
newest_rows = sort_by (λ a b. after a.timestamp b.timestamp)

-- The entries of the first query, where each Scan succeeds and the rows can be read to the end.
abbrev pub page_of : Bool → ℕ → Option (List LogEntry) → LogAnswer
page_of whole total none = no_page
page_of whole total (some entries) = if whole then log_page entries total else no_page

abbrev pub merged_of : Bool → LogQuery → List LogEntry → ℕ → Option (List LogEntry) → LogAnswer
merged_of whole opts cached total none = no_page
merged_of whole opts cached total (some entries) =
    if whole then merge_page opts entries cached total else no_page

module _ (api_rows fetcher_rows : List LogRow) (api_exists fetcher_exists : Bool) where
  unfoldable pub row_sources : LogQuery → List LogRow
  row_sources opts =
      (if asks "api" opts && api_exists
        then map (λ (r : LogRow). record r { service = "api" }) api_rows
        else [])
      ++ (if asks "fetcher" opts && fetcher_exists
          then map (λ (r : LogRow). record r { service = "fetcher" }) fetcher_rows
          else [])

  unfoldable pub found_rows : LogQuery → List LogRow
  unfolding row_sources
  found_rows opts = keep_if (meets opts) (row_sources opts)

  -- Behind the flush: `up_count` and `up_page` say whether the two queries succeed, and `whole`
  -- whether the rows of the second can be read to the end. DuckDB rejects a negative LIMIT, which is an
  -- error here.
  unfoldable pub read_logs : Bool → Bool → Bool → LogQuery → List LogEntry → LogAnswer
  unfolding found_rows scan_log scan_all merge_page sort_by
  read_logs up_count up_page whole opts cached =
      let rows = newest_rows (found_rows opts) in
      let lance_total = if up_count then length (found_rows opts) else 0 in
      if not (has_source [] [] api_exists fetcher_exists opts)
      then (if has_rows cached then merge_page opts [] cached 0 else log_page [] 0)
      else if not up_page
      then no_page
      else if has_rows cached
      then (if wraps opts
          then no_page
          else merged_of whole opts cached lance_total
              (scan_all scan_log (take (opts.offset + limit_of opts) rows)))
      else page_of whole lance_total
          (scan_all scan_log (take (limit_of opts) (drop opts.offset rows)))

-- `GetLogs`, with the tables log_api and log_fetcher as DuckDB reads them.
module _ {lance : Lance} (api_rows fetcher_rows : lance.Db → List LogRow)
    (fetcher_exists : Bool) where
  unfoldable pub get_logs :
      (ℕ → Bool)
      → ℕ
      → (ℕ → String)
      → Messages
      → Bool
      → Bool
      → Bool
      → LogQuery
      → LogBuffer
      → LogPath lance
      → LogAnswer × LogBuffer × LogPath lance
  unfolding flush flush_logs_3_tier cached_entries read_logs
  get_logs duck now uuid messages up_count up_page whole opts lb p =
      let (lb', written, p') = flush (flush_logs_3_tier duck now uuid messages) lb p in
      let (cached, off) = cached_entries duck opts p'.off_cache in
      (
        read_logs (api_rows p'.db) (fetcher_rows p'.db) p'.table_exists fetcher_exists up_count
            up_page whole opts cached,
        lb',
        record p' { off_cache = off },
      )
