-- ===== src/Tests/LogReads.antt =====
-- A page of the logs, from a table and the local cache.
use rss_lance.Base.{
  some, leb, ltb, not, ◌&&◌, ◌^◌, ℕ, ◌+◌, String, Option, ◌≡◌, ap, length, map, refl, All, List, [],
  ◌∷◌, true, false, none,
}
use rss_lance.Types.{LogEntry}
use rss_lance.LogBuffer.{LogBuffer, flush, default_log_buffer_config}
use rss_lance.LogPath.{LogPath, flush_logs_3_tier}
use rss_lance.LogReads.{
  LogQuery, LogAnswer, wraps, panics, limit_of, has_source, cached_entries, get_logs, read_logs,
  merge_page,
}
use rss_lance.Base.Int.{ℤ}
use rss_lance.Store.{gives_rows}
use rss_lance.Http.{get, json_ok, query_int}
use rss_lance.Http.Logs.{LogRequest, LogPage, query_of, page_response, handle}
use rss_lance.Http.Logs.Pages.{Full, store_logs, handle-Full}
use rss_lance.LogReads.Paging.{asked_for, rows_of, get_logs-IsPage}
use rss_lance.LogReads.Overflow.{is_panic, gives_an_error, get_logs-panics}
use rss_lance.Offline.{new_offline_cache, sort_by}
use rss_lance.Offline.Logs.{query_cached_logs, matches_filter}
use rss_lance.LogReads.Matching.{Asked, get_logs-Asked}
use rss_lance.Embedded.Logs as Cgo
use rss_lance.Embedded.Twin.Logs.{log_row, get_logs_twin}
use rss_lance.Tests.Data.{Tables, list_lance, always, entry}
use rss_lance.Tests.Tiers.{uuid, messages, path}

abbrev all_logs : LogQuery
all_logs = record {
  service = "";
  level = "info";
  category = "";
  start_time = none;
  end_time = none;
  limit = 2;
  offset = 1;
}

-- Two entries are buffered, and one waits in the local cache.
abbrev filled : LogBuffer
filled = record {
  entries = entry "2" ∷ entry "3" ∷ [];
  timer = true;
  cfg = default_log_buffer_config;
  stopped = false;
}

fetcher_rows : Tables → List LogEntry
fetcher_rows db = entry "4" ∷ []

no_wrap : wraps all_logs ≡ false
no_wrap = refl

get_logs-Asked_example : All (Asked all_logs) (
    rows_of
      (get_logs fetcher_rows true always 9 uuid messages true gives_rows all_logs filled path).0)
get_logs-Asked_example =
    get_logs-Asked always 9 uuid messages fetcher_rows true true gives_rows all_logs filled path

get_logs_twin_example :
    Cgo.get_logs
      (λ db. map log_row (list_lance.logs db))
      (λ db. map log_row (fetcher_rows db))
      true
      always
      9
      uuid
      messages
      false
      true
      true
      all_logs
      filled
      path
    ≡ get_logs fetcher_rows true always 9 uuid messages false gives_rows all_logs filled path
get_logs_twin_example =
    get_logs_twin always 9 uuid messages (λ db. map log_row (list_lance.logs db))
      (λ db. map log_row (fetcher_rows db)) fetcher_rows (λ db. refl) (λ db. refl) true false true
      all_logs filled path no_wrap

-- The largest limit there is, of a local cache with one entry to show and one to skip.
abbrev huge : LogQuery
huge = record all_logs { limit = 9223372036854775807 }

abbrev two_cached : LogPath list_lance
two_cached = record path {
  off_cache = some (record new_offline_cache { cached_logs = entry "1" ∷ entry "5" ∷ [] });
  table_exists = false;
}

abbrev no_entries : LogBuffer
no_entries = record filled { entries = [] }

huge_panics :
    (get_logs fetcher_rows false always 9 uuid messages true gives_rows huge no_entries
      two_cached).0
    ≡ panics
unfolding get_logs flush cached_entries read_logs merge_page query_cached_logs matches_filter
    sort_by
huge_panics = refl

get_logs-panics_example :
    let p' = (flush (flush_logs_3_tier always 9 uuid messages) no_entries two_cached).2 in
    is_panic
      (get_logs fetcher_rows false always 9 uuid messages true gives_rows huge no_entries
        two_cached).0
    ≡ (leb (2 ^ 63) (huge.offset + limit_of huge)
        && ltb huge.offset (length (cached_entries always huge p'.off_cache).0)
        && not (
            has_source (list_lance.logs p'.db) (fetcher_rows p'.db) p'.table_exists false huge
            && gives_an_error gives_rows))
get_logs-panics_example =
    get_logs-panics always 9 uuid messages fetcher_rows false true gives_rows huge no_entries
      two_cached

-- The logs over HTTP: a request without parameters.
abbrev plain_request : LogRequest
plain_request = record { method = get; query = λ name. "" }

abbrev no_time : String → Option ℕ
no_time s = none

abbrev no_number : String → Option ℤ
no_number s = none

abbrev plain_opts : LogQuery
plain_opts = query_of no_time no_number plain_request

plain_no_wrap : wraps plain_opts ≡ false
unfolding query_of query_int
plain_no_wrap = refl

abbrev logs :
    LogQuery → LogBuffer × LogPath list_lance → LogAnswer × (LogBuffer × LogPath list_lance)
logs = store_logs always 9 uuid messages fetcher_rows true

abbrev flushed : LogPath list_lance
flushed = (flush (flush_logs_3_tier always 9 uuid messages) filled path).2

abbrev shown : LogPage
shown = record {
  entries = rows_of (logs plain_opts (filled, path)).0;
  total =
      length (
        asked_for (list_lance.logs flushed.db) (fetcher_rows flushed.db) flushed.table_exists true
          plain_opts)
      + length (cached_entries always plain_opts flushed.off_cache).0;
  limit = plain_opts.limit;
  offset = plain_opts.offset;
}

answered : (handle no_time no_number logs plain_request (filled, path)).0 ≡ json_ok shown
unfolding handle page_response
answered =
    ap (page_response no_time no_number plain_opts)
      (get_logs-IsPage always 9 uuid messages fetcher_rows true plain_opts filled path
        plain_no_wrap).0

handle-Full_example : Full shown
handle-Full_example =
    handle-Full no_time no_number always 9 uuid messages fetcher_rows true plain_request
      (filled, path) shown plain_no_wrap answered
