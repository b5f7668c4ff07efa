-- ===== src/LogReads.antt =====
-- `GetLogs` of server/db/lance_cli.go: the log tables and the entries in the local cache, as one list.
pub mod Paging
pub mod Matching
pub mod Overflow
use rss_lance.Base.{
  ℕ, ◌+◌, ◌-◌, ◌%◌, ◌^◌, String, List, [], ◌∷◌, ◌++◌, Bool, true, false, not, ◌&&◌, ◌||◌, Option,
  none, some, ◌==◌, ◌=str◌, leb, if◌then◌else◌, keep_if, map, length, take, drop,
}
use rss_lance.Types.{LogEntry}
use rss_lance.LogBuffer.{LogBuffer, flush}
use rss_lance.LogPath.{LogPath, Messages, flush_logs_3_tier}
use rss_lance.Offline.{OfflineCache, run_sql, sort_by, after}
use rss_lance.Offline.Logs.{matches_filter, as_api, query_cached_logs}
use rss_lance.Writer.{Lance}
use rss_lance.Store.{Query, gives_rows, gives_nothing, gives_error}

-- `LogQuery`. The limit and the offset come from `queryInt`, which returns no negative number; each is
-- an int, below 2 ^ 63.
pub record LogQuery : Type 0 where
  pub service : String
  pub level : String
  pub category : String
  pub start_time : Option ℕ
  pub end_time : Option ℕ
  pub limit : ℕ
  pub offset : ℕ

-- A limit of 0 is one of 100.
abbrev pub limit_of : LogQuery → ℕ
limit_of opts = if opts.limit == 0 then 100 else opts.limit

-- What offset + limit wraps to is negative.
abbrev pub wraps : LogQuery → Bool
wraps opts = leb (2 ^ 63) (opts.offset + limit_of opts)

-- What `GetLogs` returns: the rows and the total, or an error; or it panics.
pub data LogAnswer : Type 0 where
  log_page : List LogEntry → ℕ → LogAnswer
  no_page : LogAnswer
  panics : LogAnswer

abbrev pub asks : String → LogQuery → Bool
asks name opts = opts.service =str "" || opts.service =str name

-- The text of a time has whole seconds; times are in microseconds.
abbrev pub whole_seconds : ℕ → ℕ
whole_seconds t = t - t % 1000000

-- The conditions on the timestamp: a NULL meets none.
abbrev pub from_start : Option ℕ → Option ℕ → Bool
from_start none t = true
from_start (some start) none = false
from_start (some start) (some t) = leb (whole_seconds start) t

abbrev pub to_end : Option ℕ → Option ℕ → Bool
to_end none t = true
to_end (some last) none = false
to_end (some last) (some t) = leb t (whole_seconds last)

abbrev pub in_range : LogQuery → LogEntry → Bool
in_range opts e = from_start opts.start_time e.timestamp && to_end opts.end_time e.timestamp

abbrev pub newest_first : List LogEntry → List LogEntry
newest_first = sort_by (λ a b. after a.timestamp b.timestamp)

abbrev pub has_rows : List LogEntry → Bool
has_rows [] = false
has_rows (e ∷ es) = true

-- What the local cache adds, where it is asked; an error of its statement is not looked at.
unfoldable pub cached_entries :
    (ℕ → Bool) → LogQuery → Option OfflineCache → List LogEntry × Option OfflineCache
unfolding run_sql query_cached_logs
cached_entries duck opts none = ([], none)
cached_entries duck opts (some oc) =
    let (ran, oc') = run_sql duck (λ s. s) oc in
    if not (asks "api" opts)
    then ([], some oc)
    else (if ran then query_cached_logs opts.level opts.category oc else [], some oc')

-- The merged list, sorted, and its page: a slice with a negative end panics.
unfoldable pub merge_page : LogQuery → List LogEntry → List LogEntry → ℕ → LogAnswer
unfolding sort_by
merge_page opts from_lance cached lance_total =
    let merged = newest_first (from_lance ++ cached) in
    let total = lance_total + length cached in
    if leb (length merged) opts.offset
    then log_page [] total
    else if wraps opts
    then panics
    else log_page (take (limit_of opts) (drop opts.offset merged)) total

-- Behind the query of the rows.
abbrev pub after_rows : Query → List LogEntry → (List LogEntry → LogAnswer) → LogAnswer
after_rows gives_rows rows answer = answer rows
after_rows gives_nothing rows answer = answer []
after_rows gives_error rows answer = no_page

-- DuckDB rejects a query with a negative LIMIT.
abbrev pub negative_limit : Query → Query
negative_limit gives_rows = gives_nothing
negative_limit gives_nothing = gives_nothing
negative_limit gives_error = gives_error

-- The tables log_api and log_fetcher in Lance; the flags say which of them there are.
module _ (api_logs fetcher_logs : List LogEntry) (api_exists fetcher_exists : Bool) where
  -- The rows of UNION ALL.
  unfoldable pub sources : LogQuery → List LogEntry
  sources opts =
      (if asks "api" opts && api_exists then map as_api api_logs else [])
      ++ (if asks "fetcher" opts && fetcher_exists
          then map (λ (e : LogEntry). record e { service = "fetcher" }) fetcher_logs
          else [])

  abbrev pub has_source : LogQuery → Bool
  has_source opts = (asks "api" opts && api_exists) || (asks "fetcher" opts && fetcher_exists)

  -- The rows that meet the conditions.
  unfoldable pub found : LogQuery → List LogEntry
  unfolding sources matches_filter
  found opts =
      keep_if (λ e. matches_filter opts.level opts.category e && in_range opts e) (sources opts)

  -- Behind the flush: `up_count` says whether the query of the total gives its row, and `q` what the
  -- query of the rows gives.
  unfoldable pub read_logs : Bool → Query → LogQuery → List LogEntry → LogAnswer
  unfolding found merge_page sort_by
  read_logs up_count q opts cached =
      let rows = newest_first (found opts) in
      let lance_total = if up_count then length (found opts) else 0 in
      if not (has_source opts)
      then (if has_rows cached then merge_page opts [] cached 0 else log_page [] 0)
      else if has_rows cached
      then after_rows (if wraps opts then negative_limit q else q)
          (take (opts.offset + limit_of opts) rows) (λ es. merge_page opts es cached lance_total)
      else after_rows q (take (limit_of opts) (drop opts.offset rows))
          (λ es. log_page es lance_total)

-- `GetLogs`: what is buffered is flushed first, and what the flush returns is not looked at. log_api
-- is the table that the flush writes, and the store has a log buffer.
module _ {lance : Lance} (fetcher_logs : lance.Db → List LogEntry) (fetcher_exists : Bool) where
  unfoldable pub get_logs :
      (ℕ → Bool)
      → ℕ
      → (ℕ → String)
      → Messages
      → Bool
      → Query
      → LogQuery
      → LogBuffer
      → LogPath lance
      → LogAnswer × LogBuffer × LogPath lance
  unfolding flush flush_logs_3_tier cached_entries read_logs
  get_logs duck now uuid messages up_count q opts lb p =
      let (lb', written, p') = flush (flush_logs_3_tier duck now uuid messages) lb p in
      let (cached, off) = cached_entries duck opts p'.off_cache in
      (
        read_logs (lance.logs p'.db) (fetcher_logs p'.db) p'.table_exists fetcher_exists up_count q
            opts cached,
        lb',
        record p' { off_cache = off },
      )
