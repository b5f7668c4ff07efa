-- ===== src/Tests/Data.antt =====
-- Tables kept as lists, for the runs: a Lance that always carries out its calls.
use rss_lance.Base.{ℕ, String, List, [], ◌∷◌, ◌++◌, Bool, true, false, none, some, refl, map}
use rss_lance.Types.{Article, LogEntry}
use rss_lance.WriteCache.{new_write_cache}
use rss_lance.Offline.{new_offline_cache}
use rss_lance.Writer.{Lance, Setting, where_then, apply_update}
use rss_lance.Store.{Store}

pub record Tables : Type 0 where
  pub article_rows : List Article
  pub setting_rows : List Setting
  pub log_rows : List LogEntry

abbrev pub list_lance : Lance
list_lance = record {
  Db = Tables;
  articles = λ db. db.article_rows;
  settings = λ db. db.setting_rows;
  logs = λ db. db.log_rows;
  update_articles = λ test u db.
      (true, record db { article_rows = map (where_then test (apply_update u)) db.article_rows });
  update_settings = λ test v db. (
    true,
    record db {
      setting_rows = map (where_then test (λ s. record s { value = v })) db.setting_rows;
    },
  );
  add_logs = λ es db. (true, record db { log_rows = db.log_rows ++ es });
  articles-update_articles = λ test u db. refl;
  articles-update_settings = λ test v db. refl;
  settings-update_articles = λ test u db. refl;
  settings-update_settings = λ test v db. refl;
  logs-add_logs = λ es db. refl;
}

abbrev pub always : ℕ → Bool
always n = true

abbrev pub article : String → String → Bool → Bool → Article
article id feed is_read is_starred = record {
  article_id = id;
  feed_id = feed;
  title = "";
  url = "";
  author = "";
  content = "";
  summary = "";
  published_at = none;
  fetched_at = none;
  is_read = is_read;
  is_starred = is_starred;
  created_at = none;
  updated_at = none;
}

abbrev pub two_articles : Tables
two_articles = record {
  article_rows = article "a" "f" false false ∷ article "b" "g" true false ∷ [];
  setting_rows =
      record { key = "theme"; value = "dark" } ∷ record { key = "size"; value = "9" } ∷ [];
  log_rows = [];
}

-- A store with nothing pending.
abbrev pub fresh_store : Store list_lance
fresh_store = record {
  cache = new_write_cache;
  off_cache = some new_offline_cache;
  db = two_articles;
}

abbrev pub entry : String → LogEntry
entry id = record {
  log_id = id;
  timestamp = some 7;
  level = "info";
  category = "requests";
  service = "api";
  message = "";
  details = "";
  created_at = some 7;
}
