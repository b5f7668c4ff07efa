-- ===== src/Embedded/Twin/History.antt =====
-- The two stores through any sequence of calls.
use rss_lance.Base.{ℕ, String, List, [], ◌∷◌, Bool, true, Option, ◌≡◌, refl, ap, ap₂, ◌∙◌, map}
use rss_lance.Base.Assoc.{Assoc}
use rss_lance.Types.{Article, Feed, Category}
use rss_lance.Writer.{Lance}
use rss_lance.Store.{Store, Result}
use rss_lance.Store.Articles
use rss_lance.Store.Feeds
use rss_lance.Store.Feeds.{with_unread}
use rss_lance.Store.Settings
use rss_lance.Store.Flush
use rss_lance.Store.Flush.{flush_with}
use rss_lance.Embedded.{CgoStore}
use rss_lance.Embedded.Rows.{ArticleRow, FeedRow, CategoryRow, SettingRow}
use rss_lance.Embedded.Articles as CgoArticles
use rss_lance.Embedded.Feeds as CgoFeeds
use rss_lance.Embedded.Settings as CgoSettings
use rss_lance.Embedded.Flush as CgoFlush
use rss_lance.Embedded.Twin.{
  cli_query, article_row, feed_row, category_row, setting_row, as_cli, with_cli,
}
use rss_lance.Embedded.Twin.Flush.{flush_twin, reconnect_twin}
use rss_lance.Embedded.Twin.Articles.{
  get_articles_twin, get_article_twin, get_article_batch_twin, set_article_read_twin,
  set_article_starred_twin, mark_all_read_twin,
}
use rss_lance.Embedded.Twin.Feeds.{get_feeds_twin, get_feed_twin, get_categories_twin}
use rss_lance.Embedded.Twin.Settings.{
  get_settings_twin, get_setting_twin, put_setting_twin, put_settings_twin,
}

-- A call of the store's interface, and the two steps that its goroutines take.
pub data Call : Type 0 where
  list_articles : String → ℕ → ℕ → Bool → Bool → Call
  one_article : String → Call
  batch : List String → Call
  list_feeds : Call
  one_feed : String → Call
  list_categories : Call
  all_settings : Call
  one_setting : String → Call
  set_read : String → Bool → Call
  set_starred : String → Bool → Call
  mark_all : String → Call
  put_one : String → String → Call
  put_all : Assoc String → Call
  flush : Call
  reconnect : Call

pub data Returned : Type 0 where
  articles : Result (List Article) → Returned
  article : Result (Option Article) → Returned
  feeds : Result (List Feed) → Returned
  feed : Result (Option Feed) → Returned
  categories : Result (List Category) → Returned
  settings : Result (Assoc String) → Returned
  setting : Result (Option String) → Returned
  done : Returned

-- The tables as values and as the rows that DuckDB reads, and the orders of both.
pub record Tables (lance : Lance) : Type 0 where
  pub feeds : lance.Db → List Feed
  pub categories : lance.Db → List Category
  pub title_less : Feed → Feed → Bool
  pub category_less : Category → Category → Bool
  pub article_rows : lance.Db → List ArticleRow
  pub feed_rows : lance.Db → List FeedRow
  pub category_rows : lance.Db → List CategoryRow
  pub setting_rows : lance.Db → List SettingRow
  pub row_title_less : FeedRow → FeedRow → Bool
  pub row_category_less : CategoryRow → CategoryRow → Bool

-- No column that Scan reads is NULL. The order of titles does not look at the count.
pub record NoNulls (lance : Lance) (t : Tables lance) : Type 0 where
  pub in_articles : (db : lance.Db) → t.article_rows db ≡ map article_row (lance.articles db)
  pub in_feeds : (db : lance.Db) → t.feed_rows db ≡ map feed_row (t.feeds db)
  pub in_categories : (db : lance.Db) → t.category_rows db ≡ map category_row (t.categories db)
  pub in_settings : (db : lance.Db) → t.setting_rows db ≡ map setting_row (lance.settings db)
  pub same_titles :
      (shown : List Article) (f g : Feed)
      → t.row_title_less (feed_row f) (feed_row g)
        ≡ t.title_less (with_unread shown f) (with_unread shown g)
  pub same_names :
      (c d : Category) → t.row_category_less (category_row c) (category_row d) ≡ t.category_less c d

abbrev answered : {A S : Type 0} → (A → Returned) → A × S → Returned × S
answered f (a, s) = (f a, s)

module _ {lance : Lance} (t : Tables lance) (duck : ℕ → Bool) where
  -- A call of `cliStore`. `up` says whether its query gives its rows or an
  -- error.
  abbrev cli_call : Bool → ℕ → Call → Store lance → Returned × Store lance
  cli_call up now (list_articles id n k u a) s =
      answered articles (Articles.get_articles (cli_query up) id n k u a s)
  cli_call up now (one_article id) s = answered article (Articles.get_article (cli_query up) id s)
  cli_call up now (batch ids) s =
      answered articles (Articles.get_article_batch (cli_query up) ids s)
  cli_call up now list_feeds s =
      answered feeds (Feeds.get_feeds t.feeds t.title_less (cli_query up) s)
  cli_call up now (one_feed id) s = answered feed (Feeds.get_feed t.feeds (cli_query up) id s)
  cli_call up now list_categories s =
      answered categories (Feeds.get_categories t.categories t.category_less (cli_query up) s)
  cli_call up now all_settings s = answered settings (Settings.get_settings (cli_query up) s)
  cli_call up now (one_setting key) s = answered setting (Settings.get_setting (cli_query up) key s)
  cli_call up now (set_read id b) s = (done, Articles.set_article_read duck now id b s)
  cli_call up now (set_starred id b) s = (done, Articles.set_article_starred duck now id b s)
  cli_call up now (mark_all id) s = (done, Articles.mark_all_read duck up now id s)
  cli_call up now (put_one key v) s = (done, Settings.put_setting duck now key v s)
  cli_call up now (put_all pairs) s = (done, Settings.put_settings duck now pairs s)
  cli_call up now flush s = (done, Flush.flush_pending_changes duck now s)
  cli_call up now reconnect s = (done, Flush.handle_reconnect duck now s)

  -- The same call of `cgoStore`, with rows that can be read to the end.
  abbrev cgo_call : Bool → ℕ → Call → CgoStore lance → Returned × CgoStore lance
  cgo_call up now (list_articles id n k u a) s =
      answered articles (CgoArticles.get_articles t.article_rows up true id n k u a s)
  cgo_call up now (one_article id) s =
      answered article (CgoArticles.get_article t.article_rows up id s)
  cgo_call up now (batch ids) s =
      answered articles (CgoArticles.get_article_batch t.article_rows up true ids s)
  cgo_call up now list_feeds s =
      answered feeds
        (CgoFeeds.get_feeds t.article_rows t.feed_rows t.row_title_less t.title_less up true s)
  cgo_call up now (one_feed id) s = answered feed (CgoFeeds.get_feed t.feed_rows up id s)
  cgo_call up now list_categories s =
      answered categories
        (CgoFeeds.get_categories t.category_rows t.row_category_less t.category_less up true s)
  cgo_call up now all_settings s =
      answered settings (CgoSettings.get_settings t.setting_rows up true s)
  cgo_call up now (one_setting key) s =
      answered setting (CgoSettings.get_setting t.setting_rows up key s)
  cgo_call up now (set_read id b) s = (done, CgoArticles.set_article_read duck now id b s)
  cgo_call up now (set_starred id b) s = (done, CgoArticles.set_article_starred duck now id b s)
  cgo_call up now (mark_all id) s =
      (done, CgoArticles.mark_all_read t.article_rows duck up now id s)
  cgo_call up now (put_one key v) s = (done, CgoSettings.put_setting duck now key v s)
  cgo_call up now (put_all pairs) s = (done, CgoSettings.put_settings duck now pairs s)
  cgo_call up now flush s = (done, CgoFlush.flush_pending_changes duck now s)
  cgo_call up now reconnect s = (done, CgoFlush.handle_reconnect duck now s)

  -- The calls one after the other, each with whether its query succeeds and with the clock.
  abbrev pub cli_run : List (Bool × ℕ × Call) → Store lance → List Returned × Store lance
  cli_run [] s = ([], s)
  cli_run ((up, now, c) ∷ calls) s =
      let (a, s') = cli_call up now c s in let (rest, s'') = cli_run calls s' in (a ∷ rest, s'')

  abbrev pub cgo_run : List (Bool × ℕ × Call) → CgoStore lance → List Returned × CgoStore lance
  cgo_run [] s = ([], s)
  cgo_run ((up, now, c) ∷ calls) s =
      let (a, s') = cgo_call up now c s in let (rest, s'') = cgo_run calls s' in (a ∷ rest, s'')

module _ {lance : Lance} (t : Tables lance) (duck : ℕ → Bool) (full : NoNulls lance t) where
  call_twin :
      (up : Bool) (now : ℕ) (c : Call) (s : CgoStore lance)
      → with_cli (cgo_call t duck up now c s) ≡ cli_call t duck up now c (as_cli s)
  call_twin up now (list_articles id n k u a) s =
      ap (answered articles) (get_articles_twin t.article_rows full.in_articles s up id n k u a)
  call_twin up now (one_article id) s =
      ap (answered article) (get_article_twin t.article_rows full.in_articles s up id)
  call_twin up now (batch ids) s =
      ap (answered articles) (get_article_batch_twin t.article_rows full.in_articles s up ids)
  call_twin up now list_feeds s = ap (answered feeds) (
      get_feeds_twin up s t.article_rows t.feed_rows t.feeds t.row_title_less t.title_less
        full.in_articles full.in_feeds full.same_titles)
  call_twin up now (one_feed id) s =
      ap (answered feed) (get_feed_twin up s t.feed_rows t.feeds id full.in_feeds)
  call_twin up now list_categories s = ap (answered categories) (
      get_categories_twin up s t.category_rows t.categories t.row_category_less t.category_less
        full.in_categories full.same_names)
  call_twin up now all_settings s =
      ap (answered settings) (get_settings_twin t.setting_rows full.in_settings up s)
  call_twin up now (one_setting key) s =
      ap (answered setting) (get_setting_twin t.setting_rows full.in_settings up s key)
  call_twin up now (set_read id b) s = ap (λ x. (done, x)) (set_article_read_twin duck now id s b)
  call_twin up now (set_starred id b) s =
      ap (λ x. (done, x)) (set_article_starred_twin duck now id s b)
  call_twin up now (mark_all id) s =
      ap (λ x. (done, x)) (mark_all_read_twin t.article_rows full.in_articles s duck up now id)
  call_twin up now (put_one key v) s = ap (λ x. (done, x)) (put_setting_twin duck now key v s)
  call_twin up now (put_all pairs) s = ap (λ x. (done, x)) (put_settings_twin duck now pairs s)
  call_twin up now flush s = ap (λ x. (done, x)) (flush_twin duck now s)
  call_twin up now reconnect s = ap (λ x. (done, x)) (reconnect_twin duck now s)

  -- Where no column that Scan reads is NULL, the rows of each query can be read to the end, and each
  -- query of Lance gives its rows or an error in both (DuckDB rejects none), the store over embedded
  -- DuckDB answers each of any sequence of calls as the store over the DuckDB CLI does that starts with
  -- the same overlay, local cache and tables, whichever of these queries give an error and whichever
  -- statements of the local cache fail, and the two end with the same ones.
  pub cgo_run-cli_run :
      (calls : List (Bool × ℕ × Call)) (s : CgoStore lance)
      → ((cgo_run t duck calls s).0 ≡ (cli_run t duck calls (as_cli s)).0)
        × (as_cli (cgo_run t duck calls s).1 ≡ (cli_run t duck calls (as_cli s)).1)
  cgo_run-cli_run [] s = (refl, refl)
  cgo_run-cli_run ((up, now, c) ∷ calls) s =
      let one = call_twin up now c s in
      let rest = cgo_run-cli_run calls (cgo_call t duck up now c s).1 in
      let next : as_cli (cgo_call t duck up now c s).1 ≡ (cli_call t duck up now c (as_cli s)).1 =
        ap (λ r. r.1) one in
      (
        ap₂ ◌∷◌ (ap (λ r. r.0) one) (rest.0 ∙ ap (λ x. (cli_run t duck calls x).0) next),
        rest.1 ∙ ap (λ x. (cli_run t duck calls x).1) next,
      )
