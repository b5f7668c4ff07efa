-- ===== src/Embedded/Twin/Feeds.antt =====
-- The reads of feeds and categories in the two stores.
use mathlib.Core.Option
use rss_lance.Base.{
  none, String, List, [], ◌∷◌, Bool, true, some, ◌≡◌, refl, ap, ap₂, sym, ◌∙◌, arith, keep_if, map,
  length, length-map,
}
use rss_lance.Types.{Article, Feed, Category}
use rss_lance.Offline.{sort_by}
use rss_lance.Offline.Sorting.{sort_by-map}
use rss_lance.Writer.{Lance}
use rss_lance.Store.Articles.{view, read_through}
use rss_lance.Store.Feeds as Cli
use rss_lance.Store.Feeds.{unread_in, with_unread, find_feed}
use rss_lance.Embedded.{CgoStore}
use rss_lance.Embedded.Rows.{ArticleRow, FeedRow, CategoryRow, scan_feed, scan_category, scan_all}
use rss_lance.Embedded.Commute.{keep_if-map, scan_all-map, map-identity}
use rss_lance.Embedded.Feeds as Cgo
use rss_lance.Embedded.Feeds.{unread_of, scan_counted, find_feed_row}
use rss_lance.Embedded.Twin.{
  cli_query, article_row, feed_row, category_row, as_cli, with_cli, read_rows_twin, read_row_twin,
}
use rss_lance.Embedded.Twin.Articles.{row_view_twin}

scan_counted-feed_row :
    (shown : List Article) (f : Feed)
    → scan_counted (map article_row shown) (feed_row f) ≡ some (with_unread shown f)
unfolding scan_feed
scan_counted-feed_row shown f =
    ap (λ n. scan_feed n (feed_row f))
      (ap length (keep_if-map article_row (unread_of (feed_row f)) (unread_in f) (λ a. refl) shown)
        ∙ length-map article_row (keep_if (unread_in f) shown))

find_feed_row-map :
    (id : String) (feeds : List Feed)
    → Option.map (scan_feed 0) (find_feed_row id (map feed_row feeds))
      ≡ Option.map some (find_feed id feeds)
unfolding find_feed_row scan_feed
find_feed_row-map id [] = refl
find_feed_row-map id (f ∷ feeds) = ground (arith, find_feed_row-map id feeds)

module _ {lance : Lance} (up : Bool) (s : CgoStore lance) where
  pub get_feeds_twin :
      (articles : lance.Db → List ArticleRow) (rows : lance.Db → List FeedRow)
      (feeds : lance.Db → List Feed) (row_less : FeedRow → FeedRow → Bool)
      (less : Feed → Feed → Bool)
      → ((db : lance.Db) → articles db ≡ map article_row (lance.articles db))
      → ((db : lance.Db) → rows db ≡ map feed_row (feeds db))
      → ((shown : List Article) (f g : Feed)
          → row_less (feed_row f) (feed_row g) ≡ less (with_unread shown f) (with_unread shown g))
      → with_cli (Cgo.get_feeds articles rows row_less less up true s)
        ≡ Cli.get_feeds feeds less (cli_query up) (as_cli s)
  unfolding Cgo.get_feeds Cli.get_feeds read_through
  get_feeds_twin articles rows feeds row_less less full_articles full_feeds same =
      let shown = view (as_cli s) in
      let sorted : List Feed =
        sort_by (λ f g. less (with_unread shown f) (with_unread shown g)) (feeds s.db) in
      read_rows_twin up s (λ t. []) _
        (ap₂ (λ v w. scan_all (scan_counted v) (sort_by row_less w))
            (row_view_twin articles full_articles s) (full_feeds s.db)
          ∙ ap (scan_all (scan_counted (map article_row shown)))
              (sort_by-map feed_row row_less _ (same shown) (feeds s.db))
          ∙ scan_all-map feed_row (with_unread shown) _ (scan_counted-feed_row shown) sorted
          ∙ ap some (sym (sort_by-map (with_unread shown) less _ (λ f g. refl) (feeds s.db))))

  pub get_feed_twin :
      (rows : lance.Db → List FeedRow) (feeds : lance.Db → List Feed) (id : String)
      → ((db : lance.Db) → rows db ≡ map feed_row (feeds db))
      → with_cli (Cgo.get_feed rows up id s) ≡ Cli.get_feed feeds (cli_query up) id (as_cli s)
  unfolding Cgo.get_feed Cli.get_feed read_through
  get_feed_twin rows feeds id full =
      read_row_twin up s _ (λ t. none) _
        (ap (λ v. Option.map (scan_feed 0) (find_feed_row id v)) (full s.db)
          ∙ find_feed_row-map id (feeds s.db))

  pub get_categories_twin :
      (rows : lance.Db → List CategoryRow) (categories : lance.Db → List Category)
      (row_less : CategoryRow → CategoryRow → Bool) (less : Category → Category → Bool)
      → ((db : lance.Db) → rows db ≡ map category_row (categories db))
      → ((c d : Category) → row_less (category_row c) (category_row d) ≡ less c d)
      → with_cli (Cgo.get_categories rows row_less less up true s)
        ≡ Cli.get_categories categories less (cli_query up) (as_cli s)
  unfolding Cgo.get_categories Cli.get_categories scan_category read_through
  get_categories_twin rows categories row_less less full same =
      read_rows_twin up s (λ t. []) _
        (ap (λ v. scan_all scan_category (sort_by row_less v)) (full s.db)
          ∙ ap (scan_all scan_category)
              (sort_by-map category_row row_less less same (categories s.db))
          ∙ scan_all-map category_row (λ c. c) scan_category (λ c. refl)
              (sort_by less (categories s.db))
          ∙ ap some (map-identity (sort_by less (categories s.db))))
