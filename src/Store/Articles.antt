-- ===== src/Store/Articles.antt =====
-- Articles in the store: `GetArticles`, `GetArticle`, `GetArticleBatch`, `SetArticleRead`,
-- `SetArticleStarred` and `MarkAllRead`. `q` says what a query of Lance gives, `duck n` whether
-- the n-th statement of the local cache does, and `now` is the clock.
use rss_lance.Base.{
  ℕ, String, List, [], ◌∷◌, Bool, true, not, ◌&&◌, Option, none, some, ◌=str◌, if◌then◌else◌,
  keep_if, map, take, drop,
}
use mathlib.Core.Option
use rss_lance.Types.{Article}
use rss_lance.WriteCache.{WriteCache, set_read, set_starred, overlaid}
use rss_lance.Offline.{OfflineCache, contains, sort_by}
use rss_lance.Offline.Pending.{add_pending_change, update_cached_article, mark_all_read_cached}
use rss_lance.Offline.Reads
use rss_lance.Offline.Reads.{article_filter, by_published, without_content, find_article}
use rss_lance.Writer.{Lance}
use rss_lance.Store.{
  Store, Query, gives_rows, gives_nothing, gives_error, Result, ok, failed, is_offline, go_offline,
}

-- The queries for single articles select the content, and not the last two columns.
abbrev pub detail : Article → Article
detail a = record a { created_at = none; updated_at = none }

-- What the local cache answers, where there is one.
abbrev cached : {A : Type 0} → Option OfflineCache → (OfflineCache → A) → Result A
cached none f = failed
cached (some oc) f = ok (f oc)

-- The writes that follow a change of the overlay: their errors are not looked at.
unfoldable pub buffer_change :
    (ℕ → Bool)
    → String
    → String
    → ℕ
    → (OfflineCache → OfflineCache)
    → Option OfflineCache
    → Option OfflineCache
unfolding add_pending_change
buffer_change duck id action now then_update none = none
buffer_change duck id action now then_update (some oc) =
    some (then_update (add_pending_change duck id action "" now oc).1)

unfoldable pub set_reads : List Article → WriteCache → WriteCache
unfolding set_read
set_reads [] c = c
set_reads (a ∷ rows) c = set_reads rows (set_read a.article_id true c)

module _ {lance : Lance} where
  -- The rows of the articles table as a query shows them.
  unfoldable pub view : Store lance → List Article
  unfolding overlaid
  view s = map (overlaid s.cache) (lance.articles s.db)

  -- The part of a read behind the query: an error takes the store offline and is answered from the
  -- cache, if there is one; `nothing` is the answer without rows.
  unfoldable pub after_query :
      {A : Type 0} → Query → A → A → (OfflineCache → A) → Store lance → Result A × Store lance
  unfolding go_offline
  after_query gives_rows answer nothing offline s = (ok answer, s)
  after_query gives_nothing answer nothing offline s = (ok nothing, s)
  after_query gives_error answer nothing offline s = (cached s.off_cache offline, go_offline s)

  -- A read: from the cache while offline, else by a query of Lance.
  unfoldable pub read_through :
      {A : Type 0}
      → Query
      → (Store lance → A)
      → (Store lance → A)
      → (OfflineCache → A)
      → Store lance
      → Result A × Store lance
  unfolding is_offline after_query
  read_through q online nothing offline s =
      if is_offline s
      then (cached s.off_cache offline, s)
      else after_query q (online s) (nothing s) offline s

  unfoldable pub get_articles :
      Query → String → ℕ → ℕ → Bool → Bool → Store lance → Result (List Article) × Store lance
  unfolding read_through after_query view article_filter by_published sort_by Reads.get_articles
  get_articles q feed limit offset unread_only sort_asc =
      read_through q
        (λ s. map without_content (
          take limit (
            drop offset (
              sort_by (by_published sort_asc)
                (keep_if (article_filter feed unread_only) (view s))))))
        (λ s. []) (Reads.get_articles feed limit offset unread_only sort_asc)

  unfoldable pub get_article : Query → String → Store lance → Result (Option Article) × Store lance
  unfolding read_through after_query view find_article Reads.get_article
  get_article q id =
      read_through q (λ s. Option.map detail (find_article id (view s))) (λ s. none)
        (Reads.get_article id)

  -- Of no ids the result is nil, and nothing is asked.
  unfoldable pub get_article_batch :
      Query → List String → Store lance → Result (List Article) × Store lance
  unfolding read_through after_query view contains Reads.get_article_batch
  get_article_batch q [] s = (ok [], s)
  get_article_batch q (id ∷ ids) s =
      read_through q (λ t. map detail (keep_if (λ a. contains a.article_id (id ∷ ids)) (view t)))
        (λ t. []) (Reads.get_article_batch (id ∷ ids)) s

  unfoldable pub set_article_read : (ℕ → Bool) → ℕ → String → Bool → Store lance → Store lance
  unfolding set_read buffer_change update_cached_article
  set_article_read duck now id is_read s = record s {
    cache = set_read id is_read s.cache;
    off_cache =
        buffer_change duck id (if is_read then "read" else "unread") now
          (λ oc. (update_cached_article duck id (some is_read) none now oc).1) s.off_cache;
  }

  unfoldable pub set_article_starred : (ℕ → Bool) → ℕ → String → Bool → Store lance → Store lance
  unfolding set_starred buffer_change update_cached_article
  set_article_starred duck now id is_starred s = record s {
    cache = set_starred id is_starred s.cache;
    off_cache =
        buffer_change duck id (if is_starred then "star" else "unstar") now
          (λ oc. (update_cached_article duck id none (some is_starred) now oc).1) s.off_cache;
  }

  -- The articles that are unread in Lance get an override; `up` says whether their query gives its rows.
  unfoldable pub mark_all_read : (ℕ → Bool) → Bool → ℕ → String → Store lance → Store lance
  unfolding set_reads buffer_change mark_all_read_cached
  mark_all_read duck up now feed s = record s {
    cache =
        if up
        then set_reads (keep_if (λ a. (a.feed_id =str feed) && not a.is_read) (lance.articles s.db))
            s.cache
        else s.cache;
    off_cache =
        buffer_change duck feed "mark_all_read" now
          (λ oc. (mark_all_read_cached duck feed now oc).1) s.off_cache;
  }
