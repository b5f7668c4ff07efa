-- ===== src/Http/Logs/Pages.antt =====
-- The pages that the log handler answers.
use rss_lance.Base.{
  ℕ, ◌-◌, min, String, List, Bool, true, false, not, Option, subst, ◌≡◌, sym, ap, ◌∙◌, ◌==◌,
  if◌then◌else◌, length,
}
use rss_lance.Base.Int.{ℤ}
use rss_lance.Types.{LogEntry}
use rss_lance.LogBuffer.{LogBuffer}
use rss_lance.LogPath.{LogPath, Messages}
use rss_lance.Writer.{Lance}
use rss_lance.Store.{gives_rows}
use rss_lance.LogReads.{LogQuery, LogAnswer, log_page, wraps, limit_of, get_logs}
use rss_lance.LogReads.Paging.{rows_of, NewestFirst, get_logs-IsPage}
use rss_lance.Http.{Response, json_ok, json_error, http_error, is_get}
use rss_lance.Http.Logs.{
  LogRequest, LogPage, valid_service, valid_level, query_of, page_response, handle,
}

-- A page that has the rows that its own numbers call for, the newest first: a limit of 0 counts as 100.
abbrev pub Full : LogPage → Type 0
Full page =
    (length page.entries
      ≡ min (if page.limit == 0 then 100 else page.limit) (page.total - page.offset))
    × NewestFirst page.entries

-- `GetLogs` of the store, where its queries of Lance give their rows.
abbrev pub store_logs :
    {lance : Lance} (duck : ℕ → Bool) (now : ℕ) (uuid : ℕ → String) (messages : Messages)
    (fetcher_logs : lance.Db → List LogEntry) (fetcher_exists : Bool)
    → LogQuery
    → LogBuffer × LogPath lance
    → LogAnswer × (LogBuffer × LogPath lance)
store_logs duck now uuid messages fetcher_logs fetcher_exists opts s =
    let (result, lb, p) =
      get_logs fetcher_logs fetcher_exists duck now uuid messages true gives_rows opts s.0 s.1 in
    (result, (lb, p))

passed :
    {S : Type 0} (a b c : Bool) (x : Response LogPage) (s s' : S) (page : LogPage)
    → let r : Response LogPage × S =
        if not a
        then (http_error 405, s)
        else if not b
        then (json_error 400, s)
        else if not c
        then (json_error 400, s)
        else (x, s') in
      r.0 ≡ json_ok page → x ≡ json_ok page
passed true true true x s s' page h = h
passed true true false x s s' page h = cc
passed true false c x s s' page h = cc
passed false b c x s s' page h = cc

of_result : (opts : LogQuery) (rows : List LogEntry) (n : ℕ) → LogPage
of_result opts rows n = record {
  entries = rows;
  total = n;
  limit = opts.limit;
  offset = opts.offset;
}

json_ok-same : (p q : LogPage) → json_ok p ≡ json_ok q → p ≡ q
json_ok-same p q h = cc

full :
    (parse_time : String → Option ℕ) (atoi : String → Option ℤ) (opts : LogQuery)
    (result : LogAnswer) (n : ℕ) (page : LogPage)
    → result ≡ log_page (rows_of result) n
    → (length (rows_of result) ≡ min (limit_of opts) (n - opts.offset))
      × NewestFirst (rows_of result)
    → page_response parse_time atoi opts result ≡ json_ok page
    → Full page
unfolding page_response of_result
full parse_time atoi opts result n page e g h =
    subst Full
      (json_ok-same (of_result opts (rows_of result) n) page
        (ap (page_response parse_time atoi opts) (sym e) ∙ h))
      g

module _ {lance : Lance} (parse_time : String → Option ℕ) (atoi : String → Option ℤ)
    (duck : ℕ → Bool) (now : ℕ) (uuid : ℕ → String) (messages : Messages) where
  -- Where the queries of Lance give their rows and the limit and the offset of the request add up to less
  -- than 2 ^ 63, a page that the handler answers with status 200 has the rows that its numbers call for,
  -- the newest first: as many as its limit, or 100 where it says 0, of those that its total counts
  -- behind its offset.
  pub handle-Full :
      (fetcher_logs : lance.Db → List LogEntry) (fetcher_exists : Bool) (r : LogRequest)
      (s : LogBuffer × LogPath lance) (page : LogPage)
      → wraps (query_of parse_time atoi r) ≡ false
      → (handle parse_time atoi
          (store_logs duck now uuid messages fetcher_logs fetcher_exists)
          r
          s).0
        ≡ json_ok page
      → Full page
  unfolding handle
  handle-Full fetcher_logs fetcher_exists r s page small h =
      let opts = query_of parse_time atoi r in
      let p =
        get_logs-IsPage duck now uuid messages fetcher_logs fetcher_exists opts s.0 s.1 small in
      full parse_time atoi opts _ _ page p.0 (p.1, p.2)
        (passed (is_get r.method) (valid_service opts.service) (valid_level opts.level) _ s _ page
          h)
