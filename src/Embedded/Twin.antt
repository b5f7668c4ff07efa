-- ===== src/Embedded/Twin.antt =====
-- The two stores call by call: where no column that Scan reads is NULL, the store over embedded DuckDB
-- answers what the store over the DuckDB CLI answers.
pub mod Articles
pub mod Feeds
pub mod Settings
pub mod Flush
pub mod Logs
pub mod History
use mathlib.Core.Option
use rss_lance.Base.{
  ℕ, String, List, [], ◌∷◌, Bool, true, false, not, ◌&&◌, Option, none, some, ◌≡◌, refl, ap, ap₂,
  sym, ◌∙◌, arith, ◌=str◌, if◌then◌else◌, keep_if, map, take, drop, length,
}
use rss_lance.Types.{Article, Feed, Category, Override}
use rss_lance.WriteCache.{WriteCache, overlay, overlaid, coalesce}
use rss_lance.Offline.{OfflineCache}
use rss_lance.Writer.{Lance, Setting}
use rss_lance.Store
use rss_lance.Store.{Query, gives_rows, gives_nothing, gives_error, Store, Result, ok, failed}
use rss_lance.Store.Articles.{read_through, after_query}
use rss_lance.Embedded.{CgoStore, read_rows, read_row, is_offline, go_offline, scanned_row}
use rss_lance.Embedded.Rows.{ArticleRow, FeedRow, CategoryRow, SettingRow}

-- Rows without a NULL where Scan turns it down.
abbrev pub article_row : Article → ArticleRow
article_row a = record {
  article_id = some a.article_id;
  feed_id = some a.feed_id;
  title = some a.title;
  url = some a.url;
  author = some a.author;
  content = some a.content;
  summary = some a.summary;
  published_at = a.published_at;
  fetched_at = a.fetched_at;
  is_read = some a.is_read;
  is_starred = some a.is_starred;
  created_at = a.created_at;
  updated_at = a.updated_at;
}

abbrev pub feed_row : Feed → FeedRow
feed_row f = record {
  feed_id = some f.feed_id;
  title = some f.title;
  url = some f.url;
  site_url = some f.site_url;
  icon_url = some f.icon_url;
  category_id = some f.category_id;
  subcategory_id = some f.subcategory_id;
  last_fetched = f.last_fetched;
  last_article_date = f.last_article_date;
  fetch_interval_mins = some f.fetch_interval_mins;
  fetch_tier = some f.fetch_tier;
  error_count = some f.error_count;
  last_error = some f.last_error;
}

abbrev pub category_row : Category → CategoryRow
category_row c = record {
  category_id = some c.category_id;
  name = some c.name;
  parent_id = some c.parent_id;
  sort_order = some c.sort_order;
  created_at = c.created_at;
  updated_at = c.updated_at;
}

abbrev pub setting_row : Setting → SettingRow
setting_row s = record { key = some s.key; value = some s.value }

-- The same query over the CLI: its rows, or an error. One that DuckDB rejects has no such twin:
-- it gives no rows over the CLI, and an error here.
abbrev pub cli_query : Bool → Query
cli_query true = gives_rows
cli_query false = gives_error

module _ {lance : Lance} where
  -- The store over the CLI with the same overlay, local cache and tables.
  abbrev pub as_cli : CgoStore lance → Store lance
  as_cli s = record { cache = s.cache; off_cache = s.off_cache; db = s.db }

  abbrev pub with_cli : {A : Type 0} → A × CgoStore lance → A × Store lance
  with_cli (a, s) = (a, as_cli s)

-- The two patterns of a read.
module _ (lance : Lance) (c : WriteCache) (db : lance.Db) where
  abbrev cgo : Option OfflineCache → CgoStore lance
  cgo o = record { cache = c; off_cache = o; db = db }

  read_rows_of :
      (up : Bool) {A : Type 0} (answer : A) (nothing : Store lance → A) (offline : OfflineCache → A)
      (o : Option OfflineCache)
      → with_cli (read_rows up true (some answer) offline (cgo o))
        ≡ read_through (cli_query up) (λ s. answer) nothing offline (as_cli (cgo o))
  unfolding read_rows read_through after_query is_offline go_offline Store.is_offline
      Store.go_offline
  read_rows_of true answer nothing offline none = refl
  read_rows_of false answer nothing offline none = refl
  read_rows_of true answer nothing offline (some oc) = ground arith
  read_rows_of false answer nothing offline (some oc) = ground arith

  read_row_of :
      (up : Bool) {A : Type 0} (found : Option A) (nothing : Store lance → Option A)
      (offline : OfflineCache → Option A) (o : Option OfflineCache)
      → with_cli (read_row up (Option.map some found) offline (cgo o))
        ≡ read_through (cli_query up) (λ s. found) nothing offline (as_cli (cgo o))
  unfolding read_row read_through after_query scanned_row is_offline go_offline Store.is_offline
      Store.go_offline
  read_row_of true none nothing offline none = refl
  read_row_of true (some a) nothing offline none = refl
  read_row_of true none nothing offline (some oc) = ground arith
  read_row_of true (some a) nothing offline (some oc) = ground arith
  read_row_of false none nothing offline none = refl
  read_row_of false (some a) nothing offline none = refl
  read_row_of false none nothing offline (some oc) = ground arith
  read_row_of false (some a) nothing offline (some oc) = ground arith

module _ {lance : Lance} {A : Type 0} (up : Bool) (s : CgoStore lance) where
  pub read_rows_twin :
      {online : Option A} {answer : A} (nothing : Store lance → A) (offline : OfflineCache → A)
      → online ≡ some answer
      → with_cli (read_rows up true online offline s)
        ≡ read_through (cli_query up) (λ t. answer) nothing offline (as_cli s)
  read_rows_twin {answer} nothing offline h =
      rw h (read_rows_of lance s.cache s.db up answer nothing offline s.off_cache)

  pub read_row_twin :
      {online : Option (Option A)} (found : Option A) (nothing : Store lance → Option A)
      (offline : OfflineCache → Option A)
      → online ≡ Option.map some found
      → with_cli (read_row up online offline s)
        ≡ read_through (cli_query up) (λ t. found) nothing offline (as_cli s)
  read_row_twin found nothing offline h =
      rw h (read_row_of lance s.cache s.db up found nothing offline s.off_cache)
