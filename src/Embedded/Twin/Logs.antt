-- ===== src/Embedded/Twin/Logs.antt =====
-- `GetLogs` of the two stores.
use rss_lance.Base.{
  ℕ, ◌+◌, String, List, [], ◌∷◌, ◌++◌, Bool, true, false, not, ◌&&◌, some, ◌≡◌, refl, ap, ap₂, sym,
  ◌∙◌, if◌then◌else◌, keep_if, map, take, drop, length, length-map,
}
use rss_lance.Types.{LogEntry}
use rss_lance.LogBuffer.{LogBuffer, flush}
use rss_lance.LogPath.{LogPath, Messages, flush_logs_3_tier}
use rss_lance.LogReads as Cli
use rss_lance.LogReads.Paging.{as_asked}
use rss_lance.Embedded.Twin.{cli_query}
use rss_lance.LogReads.{
  log_page, no_page, wraps, after_rows, has_source, LogQuery, limit_of, asks, in_range,
  newest_first, has_rows, cached_entries, merge_page, sources, found,
}
use rss_lance.Offline.{after}
use rss_lance.Offline.Logs.{matches_filter, as_api}
use rss_lance.Offline.Sorting.{sort_by-map}
use rss_lance.Writer.{Lance}
use rss_lance.Embedded.Rows.{scan_all}
use rss_lance.Embedded.Logs as Cgo
use rss_lance.Embedded.Logs.{
  LogRow, scan_log, meets, newest_rows, page_of, merged_of, row_sources, found_rows,
}
use rss_lance.Embedded.Commute.{take-map, drop-map, keep_if-map, scan_all-map, map-identity}

-- A row without a NULL where Scan turns it down.
abbrev pub log_row : LogEntry → LogRow
log_row e = record {
  log_id = some e.log_id;
  timestamp = e.timestamp;
  level = some e.level;
  category = some e.category;
  service = e.service;
  message = some e.message;
  details = some e.details;
  created_at = e.created_at;
}

scan_log-map : (es : List LogEntry) → scan_all scan_log (map log_row es) ≡ some es
unfolding scan_log
scan_log-map es = scan_all-map log_row (λ e. e) scan_log (λ e. refl) es ∙ ap some (map-identity es)

map-append : {A B : Type 0} (f : A → B) (xs ys : List A) → map f (xs ++ ys) ≡ map f xs ++ map f ys
map-append f [] ys = refl
map-append f (x ∷ xs) ys = ap (λ t. f x ∷ t) (map-append f xs ys)

-- One table of the union, where it is asked for.
table_rows :
    (asked : Bool) (g : LogEntry → LogEntry) (h : LogRow → LogRow)
    → ((e : LogEntry) → h (log_row e) ≡ log_row (g e))
    → (es : List LogEntry)
    → (if asked then map h (map log_row es) else []) ≡ map log_row (if asked then map g es else [])
table_rows false g h same es = refl
table_rows true g h same [] = refl
table_rows true g h same (e ∷ es) = ap₂ ◌∷◌ (same e) (table_rows true g h same es)

module _ (api fetcher : List LogEntry) (api_exists fetcher_exists : Bool) (opts : LogQuery) where
  abbrev rows : List LogRow
  rows = found_rows (map log_row api) (map log_row fetcher) api_exists fetcher_exists opts

  abbrev entries : List LogEntry
  entries = found api fetcher api_exists fetcher_exists opts

  row_sources_twin :
      row_sources (map log_row api) (map log_row fetcher) api_exists fetcher_exists opts
      ≡ map log_row (sources api fetcher api_exists fetcher_exists opts)
  unfolding row_sources sources
  row_sources_twin =
      ap₂ ◌++◌ (table_rows (asks "api" opts && api_exists) as_api _ (λ e. refl) api) (
        table_rows (asks "fetcher" opts && fetcher_exists) (λ e. record e { service = "fetcher" }) _
          (λ e. refl) fetcher)
      ∙ sym (map-append log_row _ _)

  found_rows_twin : rows ≡ map log_row entries
  unfolding found_rows found matches_filter
  found_rows_twin =
      ap (keep_if (meets opts)) row_sources_twin
      ∙ keep_if-map log_row (meets opts)
          (λ e. matches_filter opts.level opts.category e && in_range opts e) (λ e. refl)
          (sources api fetcher api_exists fetcher_exists opts)

  newest_twin : newest_rows rows ≡ map log_row (newest_first entries)
  newest_twin =
      ap newest_rows found_rows_twin
      ∙ sort_by-map log_row (λ a b. after a.timestamp b.timestamp)
          (λ a b. after a.timestamp b.timestamp) (λ a b. refl) entries

  total_twin : length rows ≡ length entries
  total_twin = ap length found_rows_twin ∙ length-map log_row entries

  fetched_twin :
      (n : ℕ) → scan_all scan_log (take n (newest_rows rows)) ≡ some (take n (newest_first entries))
  fetched_twin n =
      ap (λ v. scan_all scan_log (take n v)) newest_twin
      ∙ ap (scan_all scan_log) (take-map log_row n (newest_first entries))
      ∙ scan_log-map (take n (newest_first entries))

  paged_twin :
      (n k : ℕ)
      → scan_all scan_log (take n (drop k (newest_rows rows)))
        ≡ some (take n (drop k (newest_first entries)))
  paged_twin n k =
      ap (λ v. scan_all scan_log (take n (drop k v))) newest_twin
      ∙ ap (λ v. scan_all scan_log (take n v)) (drop-map log_row k (newest_first entries))
      ∙ ap (scan_all scan_log) (take-map log_row n (drop k (newest_first entries)))
      ∙ scan_log-map (take n (drop k (newest_first entries)))

  -- The pages that the two read, where the limit of the rows to merge has not wrapped.
  answers_twin :
      (up_page : Bool) (cached : List LogEntry) (total : ℕ)
      → wraps opts ≡ false
      → (if not up_page
          then no_page
          else if has_rows cached
          then (if wraps opts
              then no_page
              else merged_of true opts cached total
                  (scan_all scan_log (take (opts.offset + limit_of opts) (newest_rows rows))))
          else page_of true total
              (scan_all scan_log (take (limit_of opts) (drop opts.offset (newest_rows rows)))))
        ≡ (if has_rows cached
            then after_rows
                (cli_query up_page)
                (take (opts.offset + limit_of opts) (newest_first entries))
                (λ es. merge_page opts es cached total)
            else after_rows
                (cli_query up_page)
                (take (limit_of opts) (drop opts.offset (newest_first entries)))
                (λ es. log_page es total))
  answers_twin true cached total small =
      rw (fetched_twin (opts.offset + limit_of opts), paged_twin (limit_of opts) opts.offset, small)
        refl
  answers_twin false [] total small = refl
  answers_twin false (c ∷ cs) total small = refl

  read_logs_twin :
      (up_count up_page : Bool) (cached : List LogEntry)
      → wraps opts ≡ false
      → Cgo.read_logs
          (map log_row api)
          (map log_row fetcher)
          api_exists
          fetcher_exists
          up_count
          up_page
          true
          opts
          cached
        ≡ Cli.read_logs api fetcher api_exists fetcher_exists up_count
            (cli_query up_page)
            opts
            cached
  unfolding Cgo.read_logs Cli.read_logs
  read_logs_twin up_count up_page cached small =
      let total = if up_count then length entries else 0 in
      let asked = as_asked opts (cli_query up_page) small in
      rw (total_twin, asked)
        (ap
          (λ x.
            if not (has_source api fetcher api_exists fetcher_exists opts)
            then (if has_rows cached then merge_page opts [] cached 0 else log_page [] 0)
            else x)
          (answers_twin up_page cached total small))

module _ {lance : Lance} (duck : ℕ → Bool) (now : ℕ) (uuid : ℕ → String) (messages : Messages) where
  -- Where no column that Scan reads is NULL in the rows of the log tables, the rows of the page can be
  -- read to the end, offset and limit add up to less than 2 ^ 63, and the query of the rows gives its
  -- rows or an error in both (DuckDB does not reject it), `GetLogs` of the store over embedded DuckDB
  -- returns the page, the total or the error that `GetLogs` of the store over the DuckDB CLI returns,
  -- and leaves the same log buffer, local cache and tables, whether the query of the total succeeds or
  -- not and whichever statements of the local cache fail.
  pub get_logs_twin :
      (api_rows fetcher_rows : lance.Db → List LogRow) (fetcher_logs : lance.Db → List LogEntry)
      → ((db : lance.Db) → api_rows db ≡ map log_row (lance.logs db))
      → ((db : lance.Db) → fetcher_rows db ≡ map log_row (fetcher_logs db))
      → (fetcher_exists up_count up_page : Bool) (opts : LogQuery) (lb : LogBuffer)
        (p : LogPath lance)
      → wraps opts ≡ false
      → Cgo.get_logs api_rows fetcher_rows fetcher_exists duck now uuid messages up_count up_page
          true opts lb p
        ≡ Cli.get_logs fetcher_logs fetcher_exists duck now uuid messages up_count
            (cli_query up_page)
            opts
            lb
            p
  unfolding Cgo.get_logs Cli.get_logs
  get_logs_twin api_rows fetcher_rows fetcher_logs full_api full_fetcher fetcher_exists up_count
        up_page opts lb p small =
      let done = flush (flush_logs_3_tier duck now uuid messages) lb p in
      let p' = done.2 in
      let (cached, off) = cached_entries duck opts p'.off_cache in
      ap (λ r. (r, done.0, record p' { off_cache = off }))
        (ap₂
            (λ v w.
              Cgo.read_logs v w p'.table_exists fetcher_exists up_count up_page true opts cached)
            (full_api p'.db) (full_fetcher p'.db)
          ∙ read_logs_twin (lance.logs p'.db) (fetcher_logs p'.db) p'.table_exists fetcher_exists
              opts up_count up_page cached small)
