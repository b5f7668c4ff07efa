-- ===== src/Http/Feeds/MarkAllRead.antt =====
-- What the list of unread articles of a feed is right after all are marked read.
use rss_lance.Base.{
  ℕ, String, List, [], Bool, true, false, Option, none, some, ◌≡◌, refl, ◌∙◌, ◌=str◌, All,
}
use rss_lance.Base.Int.{ℤ}
use rss_lance.Types.{Article, Feed}
use rss_lance.WriteCache.{overlaid}
use rss_lance.Writer.{Lance}
use rss_lance.Store.{gives_rows, Store, is_offline}
use rss_lance.Store.Articles
use rss_lance.Store.Articles.{view, read_through, buffer_change}
use rss_lance.Store.Feeds
use rss_lance.Store.MarkedRead.NoneLeft.{no_unread}
use rss_lance.Store.MarkedRead.{Distinct}
use rss_lance.Http.{Served, get, post, Response, json_ok, split_slash, query_int}
use rss_lance.Http.Feeds.{
  FeedStore, Request, Payload, articles, done, Details, tail_of, articles_response, list_articles,
  marked_response, mark_all_read, route, handle,
}

-- The store over the DuckDB CLI as the handler uses it, while the queries of Lance succeed. `feeds` is
-- the table, `title_less` its order, and `queue` the insert into pending_feeds.
abbrev pub cli_feeds :
    (lance : Lance)
    → (lance.Db → List Feed)
    → (Feed → Feed → Bool)
    → (String → String → Store lance → Bool × Store lance)
    → (ℕ → Bool)
    → ℕ
    → FeedStore
cli_feeds lance feeds title_less queue duck now = record {
  State = Store lance;
  get_feeds = Feeds.get_feeds feeds title_less gives_rows;
  get_feed = Feeds.get_feed feeds gives_rows;
  queue_feed = queue;
  get_articles = Articles.get_articles gives_rows;
  mark_all_read = λ id s. (true, Articles.mark_all_read duck true now id s);
}

-- A path "/api/feeds/{id}/{word}" as the handler reads it.
pub record Names (path id word : String) : Type 0 where
  pub not_empty : (tail_of path =str "") ≡ false
  pub parts : split_slash (tail_of path) ≡ (id, some word)

-- POST of a path, and GET of one with its parameters.
abbrev pub posting : String → Request
posting path = record { method = post; path = path; query = λ name. ""; body = none }

abbrev pub listing : String → (String → String) → Request
listing path query = record { method = get; path = path; query = query; body = none }

module _ {lance : Lance} (feeds : lance.Db → List Feed) (title_less : Feed → Feed → Bool)
    (queue : String → String → Store lance → Bool × Store lance) (duck : ℕ → Bool) (now : ℕ)
    (atoi : String → Option ℤ) (details : Details) (uuid : ℕ → String) where
  abbrev pub served : Request → Served (Store lance) → Response Payload × Served (Store lance)
  served = handle (cli_feeds lance feeds title_less queue duck now) atoi details now uuid

  served-posting :
      (path feed : String) (s : Served (Store lance))
      → Names path feed "mark-all-read"
      → ((served (posting path) s).0 ≡ json_ok done)
        × ((served (posting path) s).1.state ≡ Articles.mark_all_read duck true now feed s.state)
  unfolding handle route mark_all_read marked_response
  served-posting path feed s h = rw (h.not_empty, h.parts) (refl, refl)

  served-listing :
      (path feed : String) (query : String → String) (s : Served (Store lance))
      → Names path feed "articles"
      → (query "unread" =str "true") ≡ true
      → (served (listing path query) s).0
        ≡ (articles_response
            (cli_feeds lance feeds title_less queue duck now)
            atoi
            details
            now
            uuid
            (Articles.get_articles gives_rows feed
              (query_int atoi (query "limit") 50)
              (query_int atoi (query "offset") 0)
              true
              (query "sort" =str "asc")
              s.state)
            s).0
  unfolding handle route list_articles
  served-listing path feed query s h unread = rw (h.not_empty, h.parts, unread) refl

  -- While the store is online and the queries of Lance succeed, a POST that marks all articles of a
  -- feed as read answers that it is done, whatever statements of the local cache fail, and a GET of
  -- the feed's unread articles then answers an empty list, whatever the page and the order. The ids of
  -- the articles in Lance are distinct, and the user has not marked any article unread that Lance has
  -- as read.
  pub served-posting-listing :
      (path list_path feed : String) (query : String → String) (s : Served (Store lance))
      → Names path feed "mark-all-read"
      → Names list_path feed "articles"
      → (feed =str "") ≡ false
      → (query "unread" =str "true") ≡ true
      → is_offline s.state ≡ false
      → Distinct (lance.articles s.state.db)
      → All
          (λ (a : Article). a.is_read ≡ true → (overlaid s.state.cache a).is_read ≡ true)
          (lance.articles s.state.db)
      → ((served (posting path) s).0 ≡ json_ok done)
        × ((served (listing list_path query) (served (posting path) s).1).0 ≡ json_ok (articles []))
  unfolding articles_response
  served-posting-listing path list_path feed query s h h' some_feed unread on distinct kept =
      let marks = served-posting path feed s h in
      let s' = (served (posting path) s).1 in
      (
        marks.0,
        served-listing list_path feed query s' h' unread
            ∙ rw
                (
                  marks.1,
                  no_unread duck now feed s.state (query_int atoi (query "limit") 50)
                      (query_int atoi (query "offset") 0) (query "sort" =str "asc") some_feed on
                      distinct kept,
                )
                refl,
      )
