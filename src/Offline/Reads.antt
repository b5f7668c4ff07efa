-- ===== src/Offline/Reads.antt =====
-- What the cache answers while Lance is out of reach: `getFeeds`, `getArticles`, `getArticle`,
-- `getArticleBatch`, `getCategories`, `getSettings`, `getSetting`. These are the answers where the
-- statement runs.
use rss_lance.Base.{
  ℕ, String, List, [], ◌∷◌, Bool, true, false, not, ◌&&◌, ◌||◌, Option, none, some, ◌=str◌,
  if◌then◌else◌, keep_if, map, take, drop,
}
use rss_lance.Base.Assoc.{Assoc, lookup}
use rss_lance.Types.{Article, Feed, Category, OfflineStatus}
use rss_lance.Offline.{OfflineCache, run_sql, contains, sort_by, before, after}
use rss_lance.Offline.Pending.{pending_count}
use rss_lance.Offline.Logs.{pending_log_count}
use rss_lance.Base.{length}

-- The WHERE clause of `getArticles`.
unfoldable pub article_filter : String → Bool → Article → Bool
article_filter feed unread_only a =
    (feed =str "" || a.feed_id =str feed) && (not unread_only || not a.is_read)

-- The list queries do not select the content.
abbrev pub without_content : Article → Article
without_content a = record a { content = "" }

unfoldable pub by_published : Bool → Article → Article → Bool
by_published true a b = before a.published_at b.published_at
by_published false a b = after a.published_at b.published_at

unfoldable pub get_articles : String → ℕ → ℕ → Bool → Bool → OfflineCache → List Article
unfolding article_filter by_published sort_by
get_articles feed limit offset unread_only sort_asc oc = map without_content (
    take limit (
      drop offset (
        sort_by (by_published sort_asc)
          (keep_if (article_filter feed unread_only) oc.cached_articles))))

-- The first row of a query, if any.
unfoldable pub find_article : String → List Article → Option Article
find_article id [] = none
find_article id (a ∷ rows) = if a.article_id =str id then some a else find_article id rows

unfoldable pub get_article : String → OfflineCache → Option Article
unfolding find_article
get_article id oc = find_article id oc.cached_articles

-- Of no ids the result is nil.
unfoldable pub get_article_batch : List String → OfflineCache → List Article
unfolding contains
get_article_batch ids oc = keep_if (λ a. contains a.article_id ids) oc.cached_articles

-- ORDER BY LOWER(title), and ORDER BY sort_order, name, by the order of texts that DuckDB uses.
unfoldable pub get_feeds : (Feed → Feed → Bool) → OfflineCache → List Feed
unfolding sort_by
get_feeds title_less oc = sort_by title_less oc.cached_feeds

unfoldable pub get_categories : (Category → Category → Bool) → OfflineCache → List Category
unfolding sort_by
get_categories category_less oc = sort_by category_less oc.cached_categories

unfoldable pub get_settings : OfflineCache → Assoc String
get_settings oc = oc.settings_cache

unfoldable pub get_setting : String → OfflineCache → Option String
unfolding lookup
get_setting key oc = lookup key oc.settings_cache

-- `status`. A failed count reads as 0.
unfoldable pub status : (ℕ → Bool) → OfflineCache → OfflineStatus × OfflineCache
unfolding pending_count pending_log_count run_sql
status duck oc =
    let (changes, oc') = pending_count duck oc in
    let (logs, oc'') = pending_log_count duck oc' in
    let (ran, oc''') = run_sql duck (λ s. s) oc'' in
    (
      record {
        offline = oc.is_offline;
        pending_changes = changes;
        pending_logs = logs;
        last_snapshot = oc.last_snapshot;
        cache_articles = if ran then length oc.cached_articles else 0;
      },
      oc''',
    )
