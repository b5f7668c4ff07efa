-- ===== src/Offline/Snapshots.antt =====
-- The writes of a snapshot: `snapshotArticles`, `snapshotFeeds`, `snapshotCategories`,
-- `snapshotSettings`, `updateLastSnapshot`. Each is one transaction.
use rss_lance.Base.{
  ℕ, String, List, [], ◌∷◌, ◌++◌, Bool, true, false, not, Option, none, some, ◌=str◌, if◌then◌else◌,
  keep_if, map,
}
use rss_lance.Base.Assoc.{Assoc, lookup, insert}
use rss_lance.Types.{Article, Feed, Category}
use rss_lance.Offline.{OfflineCache, run_sql, contains}

-- INSERT OR REPLACE INTO cached_articles.
unfoldable pub upsert_article : List Article → Article → List Article
upsert_article table a = keep_if (λ b. not (b.article_id =str a.article_id)) table ++ a ∷ []

unfoldable pub upsert_articles : List Article → List Article → List Article
unfolding upsert_article
upsert_articles table [] = table
upsert_articles table (a ∷ as') = upsert_articles (upsert_article table a) as'

-- INSERT OR IGNORE, by the ids that the table has.
insert_feeds : List Feed → List Feed → List Feed
insert_feeds table [] = table
insert_feeds table (f ∷ fs) =
    insert_feeds
      (if contains f.feed_id (map (λ (g : Feed). g.feed_id) table) then table else table ++ f ∷ [])
      fs

insert_categories : List Category → List Category → List Category
insert_categories table [] = table
insert_categories table (c ∷ cs) =
    insert_categories
      (if contains c.category_id (map (λ (d : Category). d.category_id) table)
        then table
        else table ++ c ∷ [])
      cs

abbrev known : Option String → Bool
known none = false
known (some v) = true

insert_settings : Assoc String → Assoc String → Assoc String
insert_settings table [] = table
insert_settings table ((k, v) ∷ m) =
    insert_settings (if known (lookup k table) then table else insert k v table) m

module _ (duck : ℕ → Bool) where
  unfoldable pub snapshot_articles : List Article → OfflineCache → Bool × OfflineCache
  unfolding run_sql upsert_articles
  snapshot_articles [] oc = (true, oc)
  snapshot_articles (a ∷ as') oc =
      run_sql duck (λ s. record s { cached_articles = upsert_articles s.cached_articles (a ∷ as') })
        oc

  unfoldable pub snapshot_feeds : List Feed → OfflineCache → Bool × OfflineCache
  unfolding run_sql insert_feeds contains
  snapshot_feeds [] oc = (true, oc)
  snapshot_feeds (f ∷ fs) oc =
      run_sql duck (λ s. record s { cached_feeds = insert_feeds [] (f ∷ fs) }) oc

  unfoldable pub snapshot_categories : List Category → OfflineCache → Bool × OfflineCache
  unfolding run_sql insert_categories contains
  snapshot_categories cs oc =
      run_sql duck (λ s. record s { cached_categories = insert_categories [] cs }) oc

  -- The map in memory follows the table, where the transaction is committed. The argument is a Go
  -- map, which has each key once.
  unfoldable pub snapshot_settings : Assoc String → OfflineCache → Bool × OfflineCache
  unfolding run_sql insert_settings lookup insert
  snapshot_settings settings oc =
      let (ran, oc') =
        run_sql duck (λ s. record s { cached_settings = insert_settings [] settings }) oc in
      if ran then (true, record oc' { settings_cache = settings }) else (false, oc')

unfoldable pub update_last_snapshot : ℕ → OfflineCache → OfflineCache
update_last_snapshot now oc = record oc { last_snapshot = some now }
