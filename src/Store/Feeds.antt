-- ===== src/Store/Feeds.antt =====
-- Feeds and categories in the store: `GetFeeds`, `GetFeed`, `GetPendingFeeds` and `GetCategories` of
-- server/db/lance_cli.go. `up` says whether the query of Lance succeeds.
pub mod Unread
use rss_lance.Base.{
  ℕ, String, List, [], ◌∷◌, Bool, not, ◌&&◌, Option, none, some, ◌=str◌, if◌then◌else◌, keep_if,
  map, length,
}
use rss_lance.Types.{Article, Feed, Category}
use rss_lance.Offline.{sort_by, before}
use rss_lance.Offline.Reads
use rss_lance.Writer.{Lance}
use rss_lance.Store.{
  Store, Query, gives_rows, gives_nothing, gives_error, Result, ok, failed, is_offline, go_offline,
}
use rss_lance.Store.Articles.{view, read_through, after_query}

-- A row of `pending_feeds`.
pub record PendingFeed : Type 0 where
  pub url : String
  pub requested_at : Option ℕ

-- The articles that the query joins to a feed and counts.
abbrev pub unread_in : Feed → Article → Bool
unread_in f a = a.feed_id =str f.feed_id && not a.is_read

-- A feed as the query selects it: without its own two times, and with the count. A feed stands in the
-- table once, so each is a group of its own.
abbrev pub with_unread : List Article → Feed → Feed
with_unread shown f = record f {
  unread_count = length (keep_if (unread_in f) shown);
  created_at = none;
  updated_at = none;
}

-- `GetFeed` counts nothing.
abbrev without_count : Feed → Feed
without_count f = record f { unread_count = 0; created_at = none; updated_at = none }

abbrev pub find_feed : String → List Feed → Option Feed
find_feed id [] = none
find_feed id (f ∷ fs) =
    let rest = find_feed id fs in if f.feed_id =str id then some (without_count f) else rest

-- `feeds`, `pending_feeds` and `categories` are the tables in Lance, `title_less` and
-- `category_less` the orders of texts that DuckDB uses.
module _ {lance : Lance} where
  unfoldable pub get_feeds :
      (lance.Db → List Feed)
      → (Feed → Feed → Bool)
      → Query
      → Store lance
      → Result (List Feed) × Store lance
  unfolding read_through after_query view sort_by Reads.get_feeds
  get_feeds feeds title_less q =
      read_through q (λ s. sort_by title_less (map (with_unread (view s)) (feeds s.db))) (λ s. [])
        (Reads.get_feeds title_less)

  -- Offline there is no single feed, also where the query has just failed.
  unfoldable pub get_feed :
      (lance.Db → List Feed) → Query → String → Store lance → Result (Option Feed) × Store lance
  unfolding read_through after_query
  get_feed feeds q id = read_through q (λ s. find_feed id (feeds s.db)) (λ s. none) (λ oc. none)

  -- The urls, with the oldest request first. There is no fallback.
  unfoldable pub get_pending_feeds :
      (lance.Db → List PendingFeed) → Query → Store lance → Result (List String)
  unfolding sort_by
  get_pending_feeds pending_feeds gives_rows s = ok (
      map (λ (p : PendingFeed). p.url)
        (sort_by (λ a b. before a.requested_at b.requested_at) (pending_feeds s.db)))
  get_pending_feeds pending_feeds gives_nothing s = ok []
  get_pending_feeds pending_feeds gives_error s = failed

  unfoldable pub get_categories :
      (lance.Db → List Category)
      → (Category → Category → Bool)
      → Query
      → Store lance
      → Result (List Category) × Store lance
  unfolding read_through after_query sort_by Reads.get_categories
  get_categories categories category_less q =
      read_through q (λ s. sort_by category_less (categories s.db)) (λ s. [])
        (Reads.get_categories category_less)
