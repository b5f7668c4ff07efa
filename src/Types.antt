-- ===== src/Types.antt =====
-- The shared records of server/db/store.go and server/db/infra_events.go. A time is a number, and
-- a Go pointer to one an option.
use rss_lance.Base.{ℕ, String, Bool, Option}

pub record LogEntry : Type 0 where
  pub log_id : String
  pub timestamp : Option ℕ
  pub level : String
  pub category : String
  pub service : String
  pub message : String
  pub details : String
  pub created_at : Option ℕ

pub record Article : Type 0 where
  pub article_id : String
  pub feed_id : String
  pub title : String
  pub url : String
  pub author : String
  pub content : String
  pub summary : String
  pub published_at : Option ℕ
  pub fetched_at : Option ℕ
  pub is_read : Bool
  pub is_starred : Bool
  pub created_at : Option ℕ
  pub updated_at : Option ℕ

pub record InfraEvent : Type 0 where
  pub timestamp : ℕ
  pub level : String
  pub message : String

pub record Feed : Type 0 where
  pub feed_id : String
  pub title : String
  pub url : String
  pub site_url : String
  pub icon_url : String
  pub category_id : String
  pub subcategory_id : String
  pub last_fetched : Option ℕ
  pub last_article_date : Option ℕ
  pub fetch_interval_mins : ℕ
  pub fetch_tier : String
  pub error_count : ℕ
  pub last_error : String
  pub unread_count : ℕ
  pub created_at : Option ℕ
  pub updated_at : Option ℕ

pub record Category : Type 0 where
  pub category_id : String
  pub name : String
  pub parent_id : String
  pub sort_order : ℕ
  pub created_at : Option ℕ
  pub updated_at : Option ℕ

-- `PendingChange` of server/db/offline_cache.go. For the action "setting" the article id holds the
-- key, for "mark_all_read" the feed id.
pub record PendingChange : Type 0 where
  pub id : ℕ
  pub article_id : String
  pub action : String
  pub value : String
  pub timestamp : ℕ

-- `articleOverride` and `replayState`: `none` is the nil pointer, which leaves the column alone.
pub record Override : Type 0 where
  pub is_read : Option Bool
  pub is_starred : Option Bool

-- `OfflineStatus`.
pub record OfflineStatus : Type 0 where
  pub offline : Bool
  pub pending_changes : ℕ
  pub pending_logs : ℕ
  pub last_snapshot : Option ℕ
  pub cache_articles : ℕ
