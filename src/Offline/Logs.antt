-- ===== src/Offline/Logs.antt =====
-- Log entries in the cache while Lance is out of reach: `insertLogs`, `drainLogs`, `deleteLogs`,
-- `pendingLogCount` and `queryCachedLogs`.
use rss_lance.Base.{
  ℕ, String, List, [], ◌∷◌, ◌++◌, Bool, true, not, ◌&&◌, ◌||◌, ◌=str◌, if◌then◌else◌, keep_if,
  length, take, map,
}
use rss_lance.Types.{LogEntry}
use rss_lance.Offline.{OfflineCache, run_sql, contains, sort_by, before, after}

-- INSERT OR REPLACE, of one row: `cached_logs` has no column for the service.
upsert_log : List LogEntry → LogEntry → List LogEntry
upsert_log table e =
    keep_if (λ l. not (l.log_id =str e.log_id)) table ++ record e { service = "" } ∷ []

unfoldable pub upsert_logs : List LogEntry → List LogEntry → List LogEntry
unfolding upsert_log
upsert_logs table [] = table
upsert_logs table (e ∷ es) = upsert_logs (upsert_log table e) es

-- The rows whose id is none of `ids`.
abbrev pub without_ids : List String → List LogEntry → List LogEntry
without_ids ids table = keep_if (λ l. not (contains l.log_id ids)) table

-- The WHERE clause of `queryCachedLogs`: an empty filter is left out.
unfoldable pub matches_filter : String → String → LogEntry → Bool
matches_filter level category e =
    (level =str "" || e.level =str level) && (category =str "" || e.category =str category)

abbrev pub as_api : LogEntry → LogEntry
as_api e = record e { service = "api" }

module _ (duck : ℕ → Bool) where
  unfoldable pub insert_logs : List LogEntry → OfflineCache → Bool × OfflineCache
  unfolding run_sql upsert_logs
  insert_logs [] oc = (true, oc)
  insert_logs (e ∷ es) oc =
      run_sql duck (λ s. record s { cached_logs = upsert_logs s.cached_logs (e ∷ es) }) oc

  -- `none` is the error.
  unfoldable pub drain_logs : ℕ → OfflineCache → Bool × List LogEntry × OfflineCache
  unfolding run_sql sort_by
  drain_logs batch_size oc =
      let (ran, oc') = run_sql duck (λ s. s) oc in
      (
        ran,
        if ran
            then take batch_size (sort_by (λ a b. before a.created_at b.created_at) oc.cached_logs)
            else [],
        oc',
      )

  unfoldable pub delete_logs : List String → OfflineCache → Bool × OfflineCache
  unfolding run_sql contains
  delete_logs [] oc = (true, oc)
  delete_logs (id ∷ ids) oc =
      run_sql duck (λ s. record s { cached_logs = without_ids (id ∷ ids) s.cached_logs }) oc

  -- A failed count reads as 0.
  unfoldable pub pending_log_count : OfflineCache → ℕ × OfflineCache
  unfolding run_sql
  pending_log_count oc =
      let (ran, oc') = run_sql duck (λ s. s) oc in (if ran then length oc.cached_logs else 0, oc')

-- `queryCachedLogs`, where its statement runs.
unfoldable pub query_cached_logs : String → String → OfflineCache → List LogEntry
unfolding matches_filter sort_by
query_cached_logs level category oc = map as_api (
    sort_by (λ a b. after a.timestamp b.timestamp)
      (keep_if (matches_filter level category) oc.cached_logs))
