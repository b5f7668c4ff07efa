-- ===== src/Tests/Feeds.antt =====
-- The feeds, and the articles of a feed that are all marked read.
use rss_lance.Base.{
  min, String, List, [], ◌∷◌, true, false, none, ◌≡◌, refl, map, length, All, if◌then◌else◌, ◌=str◌,
}
use rss_lance.Types.{Article, Feed}
use rss_lance.WriteCache.{overlaid}
use rss_lance.Offline.{contains}
use rss_lance.Store.{gives_rows, Store, is_offline}
use rss_lance.Store.Articles.{view, get_articles, set_article_read, mark_all_read}
use rss_lance.Store.Feeds.{get_feeds}
use rss_lance.Store.Feeds.Unread.{listed, get_feeds-get_articles}
use rss_lance.Store.MarkedRead.{Distinct, marked, view-mark_all_read}
use rss_lance.Tests.Data.{Tables, list_lance, fresh_store, always}

feed : String → Feed
feed id = record {
  feed_id = id;
  title = id;
  url = "";
  site_url = "";
  icon_url = "";
  category_id = "";
  subcategory_id = "";
  last_fetched = none;
  last_article_date = none;
  fetch_interval_mins = 30;
  fetch_tier = "";
  error_count = 0;
  last_error = "";
  unread_count = 0;
  created_at = none;
  updated_at = none;
}

feeds : Tables → List Feed
unfolding feed
feeds db = feed "f" ∷ feed "g" ∷ []

-- Article "b" of feed "g" is read in Lance, and marked unread here.
abbrev changed_store : Store list_lance
changed_store = set_article_read always 5 "b" false fresh_store

named : All (λ (f : Feed). (f.feed_id =str "") ≡ false) (feeds changed_store.db)
unfolding feeds set_article_read
named = (refl, (refl, tt))

still_online : is_offline changed_store ≡ false
unfolding set_article_read is_offline
still_online = refl

get_feeds-get_articles_example :
    All
      (λ (f : Feed).
        length (listed (get_articles gives_rows f.feed_id 50 0 true false changed_store).0)
        ≡ min 50 f.unread_count)
      (listed (get_feeds feeds (λ a b. false) gives_rows changed_store).0)
get_feeds-get_articles_example =
    get_feeds-get_articles feeds (λ a b. false) changed_store still_online named 50 false

ids-Distinct : Distinct (list_lance.articles changed_store.db)
unfolding Distinct contains set_article_read
ids-Distinct = (refl, (refl, tt))

view-mark_all_read_example :
    view (mark_all_read always true 6 "g" changed_store)
    ≡ map
        (λ (a : Article).
          if marked "g" a
          then record (overlaid changed_store.cache a) { is_read = true }
          else overlaid changed_store.cache a)
        (list_lance.articles changed_store.db)
view-mark_all_read_example = view-mark_all_read always 6 "g" changed_store ids-Distinct
