-- ===== src/Http/Feeds.antt =====
-- `FeedsHandler` of server/api/feeds.go, over a store of feeds.
pub mod MarkAllRead
use rss_lance.Base.{
  ℕ, String, List, [], ◌∷◌, ◌++◌, Bool, true, false, not, ◌&&◌, Option, none, some, ◌=str◌,
  if◌then◌else◌, length,
}
use Prim.Native.String.{◌++◌ as append}
use rss_lance.Base.Int.{ℤ}
use rss_lance.Types.{Article, Feed, LogEntry}
use rss_lance.Store.{Result, ok, failed}
use rss_lance.ServerLogger.{ServerLogger, log_json}
use rss_lance.Http.{
  Served, add_entry, is_get, is_post, is_delete, Method, Response, json_ok, json_error,
  json_accepted, http_error, trim_prefix, trim_slashes, split_slash, query_int,
}

-- What the handler asks of the store. A change gives true where it returns no error.
pub record FeedStore : Type 1 where
  pub State : Type 0
  pub get_feeds : State → Result (List Feed) × State
  pub get_feed : String → State → Result (Option Feed) × State
  pub queue_feed : String → String → State → Bool × State
  pub get_articles : String → ℕ → ℕ → Bool → Bool → State → Result (List Article) × State
  pub mark_all_read : String → State → Bool × State

-- What is read of a request. `query` is "" for a parameter that is not there, and `body` is the url
-- and the category that the body decodes to, none where it does not.
pub record Request : Type 0 where
  pub method : Method
  pub path : String
  pub query : String → String
  pub body : Option (String × String)

-- The values that are sent as JSON.
pub data Payload : Type 0 where
  feeds : List Feed → Payload
  feed : Feed → Payload
  articles : List Article → Payload
  queued : Payload
  done : Payload

-- json.Marshal of the details of the two entries.
pub record Details : Type 0 where
  pub of_url : String → String → Option String
  pub of_feed : String → Option String

-- The path without its prefix and the slashes around it.
unfoldable pub tail_of : String → String
unfolding trim_prefix trim_slashes
tail_of path = trim_slashes (trim_prefix path "/api/feeds")

-- `len(parts) == 1` and `len(parts) == 2 && parts[1] == …`.
abbrev is_whole : Option String → Bool
is_whole none = true
is_whole (some rest) = false

abbrev rest_is : Option String → String → Bool
rest_is none word = false
rest_is (some rest) word = rest =str word

-- `now` is the clock, and `uuid n` the UUID of the n-th entry.
module _ (store : FeedStore) (atoi : String → Option ℤ) (details : Details) (now : ℕ)
    (uuid : ℕ → String) where
  open store use {State}

  -- An entry of the logger, where there is one.
  log_action : Option ServerLogger → String → Option String → List LogEntry → List LogEntry
  unfolding log_json
  log_action none message encoded es = es
  log_action (some sl) message encoded es =
      add_entry (log_json sl now (uuid (length es)) "info" "feed_actions" message encoded) es

  feeds_response : Result (List Feed) × State → Served State → Response Payload × Served State
  feeds_response (ok fs, st) s = (json_ok (feeds fs), record s { state = st })
  feeds_response (failed, st) s = (json_error 500, record s { state = st })

  -- `listFeeds`.
  list_feeds : Served State → Response Payload × Served State
  unfolding feeds_response
  list_feeds s = feeds_response (store.get_feeds s.state) s

  feed_response : Result (Option Feed) × State → Served State → Response Payload × Served State
  feed_response (ok (some f), st) s = (json_ok (feed f), record s { state = st })
  feed_response (ok none, st) s = (http_error 404, record s { state = st })
  feed_response (failed, st) s = (json_error 500, record s { state = st })

  -- `getFeed`.
  get_feed : String → Served State → Response Payload × Served State
  unfolding feed_response
  get_feed id s = feed_response (store.get_feed id s.state) s

  queue_response : String → String → Bool × State → Served State → Response Payload × Served State
  unfolding log_action
  queue_response url category (true, st) s = (
    json_accepted queued,
    record s {
      state = st;
      written =
          log_action s.logger (append "Feed queued: " url) (details.of_url url category) s.written;
    },
  )
  queue_response url category (false, st) s = (json_error 500, record s { state = st })

  -- `addFeed`.
  add_feed : Option (String × String) → Served State → Response Payload × Served State
  unfolding queue_response
  add_feed none s = (http_error 400, s)
  add_feed (some (url, category)) s =
      if url =str ""
      then (http_error 400, s)
      else queue_response url category (store.queue_feed url category s.state) s

  -- `deleteFeed`.
  delete_feed : String → Served State → Response Payload × Served State
  delete_feed id s = (http_error 501, s)

  unfoldable pub articles_response :
      Result (List Article) × State → Served State → Response Payload × Served State
  articles_response (ok arts, st) s = (json_ok (articles arts), record s { state = st })
  articles_response (failed, st) s = (json_error 500, record s { state = st })

  -- `listArticles`.
  unfoldable pub list_articles : Request → String → Served State → Response Payload × Served State
  unfolding articles_response query_int
  list_articles r feed_id s =
      articles_response
        (store.get_articles feed_id (query_int atoi (r.query "limit") 50)
          (query_int atoi (r.query "offset") 0) (r.query "unread" =str "true")
          (r.query "sort" =str "asc") s.state)
        s

  unfoldable pub marked_response :
      String → Bool × State → Served State → Response Payload × Served State
  unfolding log_action
  marked_response feed_id (true, st) s = (
    json_ok done,
    record s {
      state = st;
      written = log_action s.logger "Marked all read" (details.of_feed feed_id) s.written;
    },
  )
  marked_response feed_id (false, st) s = (json_error 500, record s { state = st })

  -- `markAllRead`.
  unfoldable pub mark_all_read : String → Served State → Response Payload × Served State
  unfolding marked_response
  mark_all_read feed_id s = marked_response feed_id (store.mark_all_read feed_id s.state) s

  -- The switch of `Handle`, with the rest of the path and its parts.
  unfoldable pub route :
      Request → String → String × Option String → Served State → Response Payload × Served State
  unfolding list_feeds get_feed add_feed delete_feed list_articles mark_all_read
  route r tail (first, rest) s =
      if tail =str "" && is_get r.method
      then list_feeds s
      else if tail =str "" && is_post r.method
      then add_feed r.body s
      else if is_whole rest && not (first =str "") && is_get r.method
      then get_feed first s
      else if is_whole rest && not (first =str "") && is_delete r.method
      then delete_feed first s
      else if rest_is rest "articles" && is_get r.method
      then list_articles r first s
      else if rest_is rest "mark-all-read" && is_post r.method
      then mark_all_read first s
      else (http_error 404, s)

  unfoldable pub handle : Request → Served State → Response Payload × Served State
  unfolding route tail_of split_slash
  handle r s = route r (tail_of r.path) (split_slash (tail_of r.path)) s
