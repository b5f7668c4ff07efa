-- ===== src/Embedded/Twin/Articles.antt =====
-- The reads and changes of articles in the two stores.
use mathlib.Core.Option
use rss_lance.Base.{
  ℕ, String, List, [], ◌∷◌, Bool, true, false, not, ◌&&◌, Option, none, some, ◌≡◌, refl, ap, sym,
  ◌∙◌, arith, ◌=str◌, keep_if, map, take, drop,
}
use rss_lance.Base.Assoc.{lookup}
use rss_lance.Types.{Article, Override}
use rss_lance.WriteCache.{WriteCache, set_read, overlay, overlaid, coalesce}
use rss_lance.Offline.{OfflineCache, contains, sort_by}
use rss_lance.Offline.Sorting.{sort_by-map}
use rss_lance.Offline.Reads.{article_filter, by_published, without_content, find_article}
use rss_lance.Writer.{Lance}
use rss_lance.Writer.Groups.{map-compose, map-ext}
use rss_lance.Store.Articles as Cli
use rss_lance.Store.Articles.{read_through, after_query, view, detail, set_reads, buffer_change}
use rss_lance.Embedded.{CgoStore}
use rss_lance.Embedded.Rows.{ArticleRow, is_text, is_false, scan_article, scan_detail, scan_all}
use rss_lance.Embedded.Commute.{take-map, drop-map, keep_if-map, scan_all-map}
use rss_lance.Embedded.Articles as Cgo
use rss_lance.Embedded.Articles.{
  coalesce_column, overlay_row, overlaid_row, row_view, row_filter, row_order, find_row, id_in,
  set_row_reads, buffer_write,
}
use rss_lance.Embedded.Twin.{
  cli_query, article_row, as_cli, with_cli, read_rows_twin, read_row_twin,
}

coalesce_column-some :
    (o : Option Bool) (b : Bool) → coalesce_column o (some b) ≡ some (coalesce o b)
coalesce_column-some none b = refl
coalesce_column-some (some v) b = refl

overlay_row-article_row :
    (o : Option Override) (a : Article) → overlay_row o (article_row a) ≡ article_row (overlay o a)
unfolding overlay
overlay_row-article_row none a = refl
overlay_row-article_row (some ov) a =
    simp
      (coalesce_column-some ov.is_read a.is_read, coalesce_column-some ov.is_starred a.is_starred)

row_order-article_row :
    (asc : Bool) (a b : Article)
    → row_order asc (article_row a) (article_row b) ≡ by_published asc a b
unfolding row_order by_published
row_order-article_row true a b = refl
row_order-article_row false a b = refl

find_row-map :
    (id : String) (rows : List Article)
    → find_row id (map article_row rows) ≡ Option.map article_row (find_article id rows)
unfolding find_row find_article
find_row-map id [] = refl
find_row-map id (a ∷ rows) = ground (arith, find_row-map id rows)

set_row_reads-map :
    (rows : List Article) (c : WriteCache)
    → set_row_reads (map article_row rows) c ≡ set_reads rows c
unfolding set_row_reads set_reads
set_row_reads-map [] c = refl
set_row_reads-map (a ∷ rows) c = set_row_reads-map rows (set_read a.article_id true c)

buffer_write_twin :
    (duck : ℕ → Bool) (id action : String) (now : ℕ) (f : OfflineCache → OfflineCache)
    (o : Option OfflineCache)
    → buffer_write duck id action now f o ≡ buffer_change duck id action now f o
unfolding buffer_write buffer_change
buffer_write_twin duck id action now f none = refl
buffer_write_twin duck id action now f (some oc) = refl

scan_details :
    (found : Option Article)
    → Option.map scan_detail (Option.map article_row found)
      ≡ Option.map some (Option.map detail found)
unfolding scan_detail
scan_details none = refl
scan_details (some a) = refl

module _ {lance : Lance} (rows : lance.Db → List ArticleRow)
    (full : (db : lance.Db) → rows db ≡ map article_row (lance.articles db))
    (s : CgoStore lance) where
  pub row_view_twin : row_view rows s ≡ map article_row (view (as_cli s))
  unfolding row_view view overlaid_row overlaid
  row_view_twin =
      ap (map (overlaid_row s.cache)) (full s.db)
      ∙ map-compose article_row (overlaid_row s.cache) (lance.articles s.db)
      ∙ map-ext _ _ (lance.articles s.db)
          (λ a. overlay_row-article_row (lookup a.article_id s.cache.pending) a)
      ∙ sym (map-compose (overlaid s.cache) article_row (lance.articles s.db))

  pub mark_all_read_twin :
      (duck : ℕ → Bool) (up : Bool) (now : ℕ) (feed : String)
      → as_cli (Cgo.mark_all_read rows duck up now feed s)
        ≡ Cli.mark_all_read duck up now feed (as_cli s)
  unfolding Cgo.mark_all_read Cli.mark_all_read
  mark_all_read_twin duck up now feed = simp (
    full s.db,
    keep_if-map article_row (λ r. is_text r.feed_id feed && is_false r.is_read)
        (λ a. (a.feed_id =str feed) && not a.is_read) (λ a. refl) (lance.articles s.db),
    set_row_reads-map,
    buffer_write_twin,
  )

  module _ (up : Bool) where
    pub get_articles_twin :
        (feed : String) (limit offset : ℕ) (unread_only sort_asc : Bool)
        → with_cli (Cgo.get_articles rows up true feed limit offset unread_only sort_asc s)
          ≡ Cli.get_articles (cli_query up) feed limit offset unread_only sort_asc (as_cli s)
    unfolding Cgo.get_articles Cli.get_articles row_filter article_filter scan_article read_through
    get_articles_twin feed limit offset unread_only sort_asc =
        let p = article_filter feed unread_only in
        let shown = view (as_cli s) in
        let kept = keep_if p shown in
        let sorted = sort_by (by_published sort_asc) kept in
        read_rows_twin up s (λ t. []) _
          (ap
              (λ v. scan_all scan_article (
                take limit (
                  drop offset
                    (sort_by (row_order sort_asc) (keep_if (row_filter feed unread_only) v)))))
              row_view_twin
            ∙ ap
                (λ v.
                  scan_all scan_article (take limit (drop offset (sort_by (row_order sort_asc) v))))
                (keep_if-map article_row (row_filter feed unread_only) p (λ a. refl) shown)
            ∙ ap (λ v. scan_all scan_article (take limit (drop offset v)))
                (sort_by-map article_row (row_order sort_asc) (by_published sort_asc)
                  (row_order-article_row sort_asc) kept)
            ∙ ap (λ v. scan_all scan_article (take limit v)) (drop-map article_row offset sorted)
            ∙ ap (scan_all scan_article) (take-map article_row limit (drop offset sorted))
            ∙ scan_all-map article_row without_content scan_article (λ a. refl)
                (take limit (drop offset sorted)))

    pub get_article_twin :
        (id : String)
        → with_cli (Cgo.get_article rows up id s) ≡ Cli.get_article (cli_query up) id (as_cli s)
    unfolding Cgo.get_article Cli.get_article read_through
    get_article_twin id =
        read_row_twin up s _ (λ t. none) _
          (ap (λ v. Option.map scan_detail (find_row id v)) row_view_twin
            ∙ ap (Option.map scan_detail) (find_row-map id (view (as_cli s)))
            ∙ scan_details (find_article id (view (as_cli s))))

    pub get_article_batch_twin :
        (ids : List String)
        → with_cli (Cgo.get_article_batch rows up true ids s)
          ≡ Cli.get_article_batch (cli_query up) ids (as_cli s)
    unfolding Cgo.get_article_batch Cli.get_article_batch scan_detail read_through
    get_article_batch_twin [] = refl
    get_article_batch_twin (id ∷ ids) =
        let p = λ (a : Article). contains a.article_id (id ∷ ids) in
        let q = λ (r : ArticleRow). id_in (id ∷ ids) r.article_id in
        let shown = view (as_cli s) in
        read_rows_twin up s (λ t. []) _
          (ap (λ v. scan_all scan_detail (keep_if q v)) row_view_twin
            ∙ ap (scan_all scan_detail) (keep_if-map article_row q p (λ a. refl) shown)
            ∙ scan_all-map article_row detail scan_detail (λ a. refl) (keep_if p shown))

module _ {lance : Lance} (duck : ℕ → Bool) (now : ℕ) (id : String) (s : CgoStore lance) where
  pub set_article_read_twin :
      (b : Bool)
      → as_cli (Cgo.set_article_read duck now id b s)
        ≡ Cli.set_article_read duck now id b (as_cli s)
  unfolding Cgo.set_article_read Cli.set_article_read
  set_article_read_twin true = simp (buffer_write_twin)
  set_article_read_twin false = simp (buffer_write_twin)

  pub set_article_starred_twin :
      (b : Bool)
      → as_cli (Cgo.set_article_starred duck now id b s)
        ≡ Cli.set_article_starred duck now id b (as_cli s)
  unfolding Cgo.set_article_starred Cli.set_article_starred
  set_article_starred_twin true = simp (buffer_write_twin)
  set_article_starred_twin false = simp (buffer_write_twin)
