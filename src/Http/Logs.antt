-- ===== src/Http/Logs.antt =====
-- `LogsHandler` of server/api/logs.go, over the store's `GetLogs`.
pub mod Pages
use rss_lance.Base.{
  ℕ, String, List, [], ◌∷◌, Bool, true, false, not, ◌||◌, Option, none, some, ◌=str◌, if◌then◌else◌,
}
use rss_lance.Base.Int.{ℤ}
use rss_lance.Types.{LogEntry}
use rss_lance.LogReads.{LogQuery, LogAnswer, log_page, no_page, panics}
use rss_lance.Http.{Method, is_get, Response, json_ok, json_error, http_error, no_answer, query_int}

-- What is read of a request: `query` is "" for a parameter that is not there.
pub record LogRequest : Type 0 where
  pub method : Method
  pub query : String → String

-- The JSON object of the answer.
pub record LogPage : Type 0 where
  pub entries : List LogEntry
  pub total : ℕ
  pub limit : ℕ
  pub offset : ℕ

abbrev pub valid_service : String → Bool
valid_service s = s =str "" || s =str "api" || s =str "fetcher"

abbrev pub valid_level : String → Bool
valid_level l = l =str "" || l =str "debug" || l =str "info" || l =str "warn" || l =str "error"

-- `parse_time` is time.Parse of RFC 3339, none its error; `atoi` is strconv.Atoi.
module _ (parse_time : String → Option ℕ) (atoi : String → Option ℤ) where
  abbrev time_of : String → Option ℕ
  time_of s = if s =str "" then none else parse_time s

  unfoldable pub query_of : LogRequest → LogQuery
  unfolding query_int
  query_of r = record {
    service = r.query "service";
    level = r.query "level";
    category = r.query "category";
    start_time = time_of (r.query "start_time");
    end_time = time_of (r.query "end_time");
    limit = query_int atoi (r.query "limit") 100;
    offset = query_int atoi (r.query "offset") 0;
  }

  unfoldable pub page_response : LogQuery → LogAnswer → Response LogPage
  page_response opts (log_page entries total) =
      json_ok
        (record { entries = entries; total = total; limit = opts.limit; offset = opts.offset })
  page_response opts no_page = json_error 500
  page_response opts panics = no_answer

  module _ {S : Type 0} (get_logs : LogQuery → S → LogAnswer × S) where
    -- `Handle`. The store is asked only where the filters are valid.
    unfoldable pub handle : LogRequest → S → Response LogPage × S
    unfolding query_of page_response
    handle r s =
        let opts = query_of r in
        let (result, s') = get_logs opts s in
        if not (is_get r.method)
        then (http_error 405, s)
        else if not (valid_service opts.service)
        then (json_error 400, s)
        else if not (valid_level opts.level)
        then (json_error 400, s)
        else (page_response opts result, s')
