-- ===== src/Embedded/Rows.antt =====
-- Rows as DuckDB returns them, where any column can be NULL, and what `rows.Scan` makes of them in
-- server/db/lance_cgo.go.
use rss_lance.Base.{ℕ, String, List, [], ◌∷◌, Bool, not, Option, none, some, ◌=str◌}
use rss_lance.Types.{Article, Feed, Category}

pub record ArticleRow : Type 0 where
  pub article_id : Option String
  pub feed_id : Option String
  pub title : Option String
  pub url : Option String
  pub author : Option String
  pub content : Option String
  pub summary : Option String
  pub published_at : Option ℕ
  pub fetched_at : Option ℕ
  pub is_read : Option Bool
  pub is_starred : Option Bool
  pub created_at : Option ℕ
  pub updated_at : Option ℕ

pub record FeedRow : Type 0 where
  pub feed_id : Option String
  pub title : Option String
  pub url : Option String
  pub site_url : Option String
  pub icon_url : Option String
  pub category_id : Option String
  pub subcategory_id : Option String
  pub last_fetched : Option ℕ
  pub last_article_date : Option ℕ
  pub fetch_interval_mins : Option ℕ
  pub fetch_tier : Option String
  pub error_count : Option ℕ
  pub last_error : Option String

pub record CategoryRow : Type 0 where
  pub category_id : Option String
  pub name : Option String
  pub parent_id : Option String
  pub sort_order : Option ℕ
  pub created_at : Option ℕ
  pub updated_at : Option ℕ

pub record SettingRow : Type 0 where
  pub key : Option String
  pub value : Option String

-- SQL's `=` with a text, and `= FALSE`: neither holds of a NULL.
abbrev pub is_text : Option String → String → Bool
is_text none s = Bool.false
is_text (some t) s = t =str s

abbrev pub is_false : Option Bool → Bool
is_false none = Bool.false
is_false (some b) = not b

infixl 5 ◌>>=◌
abbrev pub ◌>>=◌ : {A B : Type 0} → Option A → (A → Option B) → Option B
none >>= f = none
some a >>= f = f a

-- The columns of the list of articles: a time may be NULL.
unfoldable pub scan_article : ArticleRow → Option Article
scan_article r = do
  article_id ← r.article_id
  feed_id ← r.feed_id
  title ← r.title
  url ← r.url
  author ← r.author
  summary ← r.summary
  is_read ← r.is_read
  is_starred ← r.is_starred
  some (record {
    article_id = article_id;
    feed_id = feed_id;
    title = title;
    url = url;
    author = author;
    content = "";
    summary = summary;
    published_at = r.published_at;
    fetched_at = r.fetched_at;
    is_read = is_read;
    is_starred = is_starred;
    created_at = r.created_at;
    updated_at = r.updated_at;
  })

-- The columns of a single article: the content too, and not the last two times.
unfoldable pub scan_detail : ArticleRow → Option Article
scan_detail r = do
  article_id ← r.article_id
  feed_id ← r.feed_id
  title ← r.title
  url ← r.url
  author ← r.author
  content ← r.content
  summary ← r.summary
  is_read ← r.is_read
  is_starred ← r.is_starred
  some (record {
    article_id = article_id;
    feed_id = feed_id;
    title = title;
    url = url;
    author = author;
    content = content;
    summary = summary;
    published_at = r.published_at;
    fetched_at = r.fetched_at;
    is_read = is_read;
    is_starred = is_starred;
    created_at = none;
    updated_at = none;
  })

-- The columns of a feed, with the count that stands beside them.
unfoldable pub scan_feed : ℕ → FeedRow → Option Feed
scan_feed unread_count r = do
  feed_id ← r.feed_id
  title ← r.title
  url ← r.url
  site_url ← r.site_url
  icon_url ← r.icon_url
  category_id ← r.category_id
  subcategory_id ← r.subcategory_id
  fetch_interval_mins ← r.fetch_interval_mins
  fetch_tier ← r.fetch_tier
  error_count ← r.error_count
  last_error ← r.last_error
  some (record {
    feed_id = feed_id;
    title = title;
    url = url;
    site_url = site_url;
    icon_url = icon_url;
    category_id = category_id;
    subcategory_id = subcategory_id;
    last_fetched = r.last_fetched;
    last_article_date = r.last_article_date;
    fetch_interval_mins = fetch_interval_mins;
    fetch_tier = fetch_tier;
    error_count = error_count;
    last_error = last_error;
    unread_count = unread_count;
    created_at = none;
    updated_at = none;
  })

unfoldable pub scan_category : CategoryRow → Option Category
scan_category r = do
  category_id ← r.category_id
  name ← r.name
  parent_id ← r.parent_id
  sort_order ← r.sort_order
  some (record {
    category_id = category_id;
    name = name;
    parent_id = parent_id;
    sort_order = sort_order;
    created_at = r.created_at;
    updated_at = r.updated_at;
  })

unfoldable pub scan_setting : SettingRow → Option (String × String)
scan_setting r = do key ← r.key; value ← r.value; some (key, value)

-- The loop over `rows.Next()`: the first Scan that fails ends it.
unfoldable pub scan_all : {A B : Type 0} → (A → Option B) → List A → Option (List B)
scan_all scan [] = some []
scan_all scan (r ∷ rows) = do a ← scan r; rest ← scan_all scan rows; some (a ∷ rest)
