-- ===== src/Tests/Embedded.antt =====
-- The store over embedded DuckDB, over the tables kept as lists.
use rss_lance.Base.{ℕ, List, [], ◌∷◌, Bool, true, false, none, some, ◌≡◌, refl, map}
use rss_lance.Types.{Feed}
use rss_lance.WriteCache.{new_write_cache}
use rss_lance.Offline.{new_offline_cache}
use rss_lance.Offline.Reads
use rss_lance.Store.{ok}
use rss_lance.Embedded.{CgoStore, is_offline}
use rss_lance.Embedded.Rows.{ArticleRow}
use rss_lance.Embedded.Articles.{row_view, find_row, get_article, overlaid_row}
use rss_lance.Embedded.Nulls.{has_null, get_article_null}
use rss_lance.Embedded.Twin.{article_row, feed_row, setting_row, as_cli}
use rss_lance.Embedded.Twin.History.{
  Call, list_articles, list_feeds, set_read, put_one, one_setting, flush, Tables, NoNulls, cgo_run,
  cli_run, cgo_run-cli_run,
}
use rss_lance.Base.Assoc.{lookup}
use rss_lance.Tests.Data
use rss_lance.Tests.Data.{list_lance, always, two_articles}

abbrev a_feed : Feed
a_feed = record {
  feed_id = "f";
  title = "F";
  url = "";
  site_url = "";
  icon_url = "";
  category_id = "";
  subcategory_id = "";
  last_fetched = none;
  last_article_date = none;
  fetch_interval_mins = 30;
  fetch_tier = "active";
  error_count = 0;
  last_error = "";
  unread_count = 0;
  created_at = none;
  updated_at = none;
}

abbrev tables : Tables list_lance
tables = record {
  feeds = λ db. a_feed ∷ [];
  categories = λ db. [];
  title_less = λ f g. false;
  category_less = λ c d. false;
  article_rows = λ db. map article_row (list_lance.articles db);
  feed_rows = λ db. feed_row a_feed ∷ [];
  category_rows = λ db. [];
  setting_rows = λ db. map setting_row (list_lance.settings db);
  row_title_less = λ f g. false;
  row_category_less = λ c d. false;
}

tables-NoNulls : NoNulls list_lance tables
tables-NoNulls = record {
  in_articles = λ db. refl;
  in_feeds = λ db. refl;
  in_categories = λ db. refl;
  in_settings = λ db. refl;
  same_titles = λ shown f g. refl;
  same_names = λ c d. refl;
}

abbrev cgo_store : CgoStore list_lance
cgo_store = record {
  cache = new_write_cache;
  off_cache = some new_offline_cache;
  db = two_articles;
}

-- The second query fails, so the reads behind it are answered offline.
abbrev calls : List (Bool × ℕ × Call)
calls =
    (true, 1, set_read "a" true)
    ∷ (false, 2, list_feeds)
    ∷ (true, 3, list_articles "f" 50 0 true false)
    ∷ (true, 4, put_one "size" "12")
    ∷ (true, 5, flush)
    ∷ (true, 6, one_setting "size")
    ∷ []

cgo_run-cli_run_example :
    ((cgo_run tables always calls cgo_store).0 ≡ (cli_run tables always calls (as_cli cgo_store)).0)
    × (as_cli (cgo_run tables always calls cgo_store).1
        ≡ (cli_run tables always calls (as_cli cgo_store)).1)
cgo_run-cli_run_example = cgo_run-cli_run tables always tables-NoNulls calls cgo_store

-- A row whose author is NULL.
abbrev no_author : ArticleRow
no_author = record (article_row (Data.article "a" "f" false false)) { author = none }

online : is_offline cgo_store ≡ false
unfolding is_offline
online = refl

null_found : find_row "a" (row_view (λ db. no_author ∷ []) cgo_store) ≡ some no_author
unfolding find_row row_view overlaid_row lookup
null_found = refl

null_there : has_null no_author ≡ true
unfolding has_null
null_there = refl

get_article_null_example :
    ((get_article (λ db. no_author ∷ []) true "a" cgo_store).0
      ≡ ok (Reads.get_article "a" new_offline_cache))
    × (is_offline (get_article (λ db. no_author ∷ []) true "a" cgo_store).1 ≡ true)
get_article_null_example =
    get_article_null (λ db. no_author ∷ []) "a" cgo_store new_offline_cache no_author refl online
      null_found null_there
