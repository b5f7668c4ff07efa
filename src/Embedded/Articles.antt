-- ===== src/Embedded/Articles.antt =====
-- Articles in the store over embedded DuckDB, server/db/lance_cgo.go. `up` says whether a query
-- succeeds, `whole` whether its rows can be read to the end, `duck n` whether the n-th statement of
-- the local cache succeeds, and `now` is the clock.
use mathlib.Core.Option
use rss_lance.Base.{
  ℕ, String, List, [], ◌∷◌, Bool, true, false, not, ◌&&◌, ◌||◌, Option, none, some, ◌=str◌,
  if◌then◌else◌, keep_if, map, take, drop,
}
use rss_lance.Base.Assoc.{lookup}
use rss_lance.Types.{Article, Override}
use rss_lance.WriteCache.{WriteCache, set_read, set_starred}
use rss_lance.Offline.{OfflineCache, contains, sort_by, before, after}
use rss_lance.Offline.Pending.{add_pending_change, update_cached_article, mark_all_read_cached}
use rss_lance.Offline.Reads
use rss_lance.Writer.{Lance}
use rss_lance.Store.{Result, ok}
use rss_lance.Embedded.{CgoStore, read_rows, read_row}
use rss_lance.Embedded.Rows.{ArticleRow, is_text, is_false, scan_article, scan_detail, scan_all}

-- The override that LEFT JOIN finds: a NULL id has none.
abbrev override_for : WriteCache → Option String → Option Override
override_for c none = none
override_for c (some id) = lookup id c.pending

-- COALESCE.
abbrev pub coalesce_column : Option Bool → Option Bool → Option Bool
coalesce_column none b = b
coalesce_column (some o) b = some o

abbrev pub overlay_row : Option Override → ArticleRow → ArticleRow
overlay_row none r = r
overlay_row (some ov) r = record r {
  is_read = coalesce_column ov.is_read r.is_read;
  is_starred = coalesce_column ov.is_starred r.is_starred;
}

unfoldable pub overlaid_row : WriteCache → ArticleRow → ArticleRow
unfolding lookup
overlaid_row c r = overlay_row (override_for c r.article_id) r

-- The WHERE clause of `GetArticles`.
unfoldable pub row_filter : String → Bool → ArticleRow → Bool
row_filter feed unread_only r =
    (feed =str "" || is_text r.feed_id feed) && (not unread_only || is_false r.is_read)

unfoldable pub row_order : Bool → ArticleRow → ArticleRow → Bool
row_order true a b = before a.published_at b.published_at
row_order false a b = after a.published_at b.published_at

unfoldable pub find_row : String → List ArticleRow → Option ArticleRow
find_row id [] = none
find_row id (r ∷ rows) = if is_text r.article_id id then some r else find_row id rows

abbrev pub id_in : List String → Option String → Bool
id_in ids none = false
id_in ids (some id) = contains id ids

-- A row whose id does not scan is passed over.
unfoldable pub set_row_reads : List ArticleRow → WriteCache → WriteCache
unfolding set_read
set_row_reads [] c = c
set_row_reads (r ∷ rows) c =
    set_row_reads rows (elim (r.article_id) [ none ↦ c | some id ↦ set_read id true c ])

unfoldable pub buffer_write :
    (ℕ → Bool)
    → String
    → String
    → ℕ
    → (OfflineCache → OfflineCache)
    → Option OfflineCache
    → Option OfflineCache
unfolding add_pending_change
buffer_write duck id action now then_update none = none
buffer_write duck id action now then_update (some oc) =
    some (then_update (add_pending_change duck id action "" now oc).1)

-- `articles` is the table as DuckDB reads it.
module _ {lance : Lance} (articles : lance.Db → List ArticleRow) where
  unfoldable pub row_view : CgoStore lance → List ArticleRow
  unfolding overlaid_row
  row_view s = map (overlaid_row s.cache) (articles s.db)

  unfoldable pub get_articles :
      Bool
      → Bool
      → String
      → ℕ
      → ℕ
      → Bool
      → Bool
      → CgoStore lance
      → Result (List Article) × CgoStore lance
  unfolding read_rows row_view row_filter row_order sort_by scan_all scan_article Reads.get_articles
  get_articles up whole feed limit offset unread_only sort_asc s =
      read_rows up whole
        (scan_all scan_article (
          take limit (
            drop offset
              (sort_by (row_order sort_asc) (keep_if (row_filter feed unread_only) (row_view s))))))
        (Reads.get_articles feed limit offset unread_only sort_asc) s

  unfoldable pub get_article :
      Bool → String → CgoStore lance → Result (Option Article) × CgoStore lance
  unfolding read_row row_view find_row scan_detail Reads.get_article
  get_article up id s =
      read_row up (Option.map scan_detail (find_row id (row_view s))) (Reads.get_article id) s

  unfoldable pub get_article_batch :
      Bool → Bool → List String → CgoStore lance → Result (List Article) × CgoStore lance
  unfolding read_rows row_view contains scan_all scan_detail Reads.get_article_batch
  get_article_batch up whole [] s = (ok [], s)
  get_article_batch up whole (id ∷ ids) s =
      read_rows up whole
        (scan_all scan_detail (keep_if (λ r. id_in (id ∷ ids) r.article_id) (row_view s)))
        (Reads.get_article_batch (id ∷ ids)) s

  -- The rows that are unread in Lance get an override; their query fails where `up` is false.
  unfoldable pub mark_all_read : (ℕ → Bool) → Bool → ℕ → String → CgoStore lance → CgoStore lance
  unfolding set_row_reads buffer_write mark_all_read_cached
  mark_all_read duck up now feed s = record s {
    cache =
        if up
        then set_row_reads
            (keep_if (λ r. is_text r.feed_id feed && is_false r.is_read) (articles s.db)) s.cache
        else s.cache;
    off_cache =
        buffer_write duck feed "mark_all_read" now (λ oc. (mark_all_read_cached duck feed now oc).1)
          s.off_cache;
  }

module _ {lance : Lance} where
  unfoldable pub set_article_read : (ℕ → Bool) → ℕ → String → Bool → CgoStore lance → CgoStore lance
  unfolding set_read buffer_write update_cached_article
  set_article_read duck now id is_read s = record s {
    cache = set_read id is_read s.cache;
    off_cache =
        buffer_write duck id (if not is_read then "unread" else "read") now
          (λ oc. (update_cached_article duck id (some is_read) none now oc).1) s.off_cache;
  }

  unfoldable pub set_article_starred :
      (ℕ → Bool) → ℕ → String → Bool → CgoStore lance → CgoStore lance
  unfolding set_starred buffer_write update_cached_article
  set_article_starred duck now id is_starred s = record s {
    cache = set_starred id is_starred s.cache;
    off_cache =
        buffer_write duck id (if not is_starred then "unstar" else "star") now
          (λ oc. (update_cached_article duck id none (some is_starred) now oc).1) s.off_cache;
  }
