-- ===== src/Embedded/Feeds.antt =====
-- Feeds and categories in the store over embedded DuckDB, server/db/lance_cgo.go.
use mathlib.Core.Option
use rss_lance.Base.{
  ℕ, String, List, [], ◌∷◌, Bool, false, ◌&&◌, Option, none, some, if◌then◌else◌, keep_if, length,
}
use rss_lance.Types.{Feed, Category}
use rss_lance.Offline.{sort_by, before}
use rss_lance.Offline.Reads
use rss_lance.Writer.{Lance}
use rss_lance.Store.{Result, failed}
use rss_lance.Embedded.{CgoStore, read_rows, read_row, scanned_rows}
use rss_lance.Embedded.Rows.{
  ArticleRow, FeedRow, CategoryRow, is_text, is_false, scan_feed, scan_category, scan_all,
}
use rss_lance.Embedded.Articles.{row_view}

-- A row of `pending_feeds`.
pub record PendingRow : Type 0 where
  pub url : Option String
  pub requested_at : Option ℕ

-- `a.feed_id = f.feed_id`.
abbrev same_text : Option String → Option String → Bool
same_text s none = false
same_text s (some t) = is_text s t

abbrev pub unread_of : FeedRow → ArticleRow → Bool
unread_of f a = same_text a.feed_id f.feed_id && is_false a.is_read

abbrev pub scan_counted : List ArticleRow → FeedRow → Option Feed
scan_counted shown f = scan_feed (length (keep_if (unread_of f) shown)) f

unfoldable pub find_feed_row : String → List FeedRow → Option FeedRow
find_feed_row id [] = none
find_feed_row id (f ∷ rows) = if is_text f.feed_id id then some f else find_feed_row id rows

-- The tables are what DuckDB reads; `row_title_less` and `row_category_less` are the orders of their
-- rows, `title_less` and `category_less` those of the local cache.
module _ {lance : Lance} where
  unfoldable pub get_feeds :
      (lance.Db → List ArticleRow)
      → (lance.Db → List FeedRow)
      → (FeedRow → FeedRow → Bool)
      → (Feed → Feed → Bool)
      → Bool
      → Bool
      → CgoStore lance
      → Result (List Feed) × CgoStore lance
  unfolding read_rows row_view sort_by scan_all scan_feed Reads.get_feeds
  get_feeds articles feeds row_title_less title_less up whole s =
      read_rows up whole
        (scan_all (scan_counted (row_view articles s)) (sort_by row_title_less (feeds s.db)))
        (Reads.get_feeds title_less) s

  -- Offline there is no single feed, also where the query has just failed.
  unfoldable pub get_feed :
      (lance.Db → List FeedRow)
      → Bool
      → String
      → CgoStore lance
      → Result (Option Feed) × CgoStore lance
  unfolding read_row scan_feed find_feed_row
  get_feed feeds up id s =
      read_row up (Option.map (scan_feed 0) (find_feed_row id (feeds s.db))) (λ oc. none) s

  -- There is no fallback.
  unfoldable pub get_pending_feeds :
      (lance.Db → List PendingRow) → Bool → Bool → CgoStore lance → Result (List String)
  unfolding sort_by scan_all
  get_pending_feeds pending_feeds up whole s =
      if up
      then scanned_rows whole (
          scan_all (λ (p : PendingRow). p.url)
            (sort_by (λ a b. before a.requested_at b.requested_at) (pending_feeds s.db)))
      else failed

  unfoldable pub get_categories :
      (lance.Db → List CategoryRow)
      → (CategoryRow → CategoryRow → Bool)
      → (Category → Category → Bool)
      → Bool
      → Bool
      → CgoStore lance
      → Result (List Category) × CgoStore lance
  unfolding read_rows sort_by scan_all scan_category Reads.get_categories
  get_categories categories row_category_less category_less up whole s =
      read_rows up whole (scan_all scan_category (sort_by row_category_less (categories s.db)))
        (Reads.get_categories category_less) s
