-- ===== src/Embedded/Nulls.antt =====
-- What the store over embedded DuckDB does with a row that Scan turns down.
use rss_lance.Base.{
  String, List, Bool, Option-cases, ◌||◌, true, false, Option, none, some, ◌≡◌, arith,
}
use rss_lance.Offline.{OfflineCache}
use rss_lance.Offline.Reads
use rss_lance.Writer.{Lance}
use rss_lance.Store.{ok}
use rss_lance.Embedded.{CgoStore, is_offline, go_offline, read_row, scanned_row}
use rss_lance.Embedded.Rows.{ArticleRow, scan_detail}
use rss_lance.Embedded.Articles.{row_view, find_row, get_article}

goes_offline :
    {lance : Lance} {A : Type 0} (offline : OfflineCache → Option A) (s : CgoStore lance)
    (oc : OfflineCache)
    → s.off_cache ≡ some oc
    → is_offline s ≡ false
    → ((read_row true (some none) offline s).0 ≡ ok (offline oc))
      × (is_offline (read_row true (some none) offline s).1 ≡ true)
unfolding read_row scanned_row go_offline is_offline
goes_offline offline s oc here on = rw here (ground (arith, here))

abbrev is_null : {A : Type 0} → Option A → Bool
is_null none = true
is_null (some a) = false

-- A column of a single article is NULL that is no time.
unfoldable pub has_null : ArticleRow → Bool
has_null r =
    is_null r.article_id
    || is_null r.feed_id
    || is_null r.title
    || is_null r.url
    || is_null r.author
    || is_null r.content
    || is_null r.summary
    || is_null r.is_read
    || is_null r.is_starred

scan_detail-null : (r : ArticleRow) → has_null r ≡ true → scan_detail r ≡ none
unfolding scan_detail has_null
scan_detail-null r h = ground (
  arith,
  h,
  Option-cases r.article_id,
  Option-cases r.feed_id,
  Option-cases r.title,
  Option-cases r.url,
  Option-cases r.author,
  Option-cases r.content,
  Option-cases r.summary,
  Option-cases r.is_read,
  Option-cases r.is_starred,
)

-- While the store is online and has a local cache, a `GetArticle` whose query succeeds and finds a row
-- with a NULL in a text or Boolean column answers from the local cache, and takes the whole store
-- offline.
pub get_article_null :
    {lance : Lance} (rows : lance.Db → List ArticleRow) (id : String) (s : CgoStore lance)
    (oc : OfflineCache) (r : ArticleRow)
    → s.off_cache ≡ some oc
    → is_offline s ≡ false
    → find_row id (row_view rows s) ≡ some r
    → has_null r ≡ true
    → ((get_article rows true id s).0 ≡ ok (Reads.get_article id oc))
      × (is_offline (get_article rows true id s).1 ≡ true)
unfolding get_article
get_article_null rows id s oc r here on found null =
    rw (found, scan_detail-null r null) (goes_offline (Reads.get_article id) s oc here on)
