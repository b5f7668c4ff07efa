-- ===== src/Offline.antt =====
-- The local DuckDB cache, server/db/offline_cache.go: its tables, and how a statement runs on them.
-- An SQL statement of the source is the function on the tables that its text says. Whether DuckDB
-- runs it is not in the source: `duck n` says it of the n-th statement, and a statement or a
-- transaction that fails changes nothing.
pub mod Logs
pub mod Pending
pub mod Snapshots
pub mod Snapshot
pub mod Reads
pub mod Sorting
use rss_lance.Base.{
  ℕ, suc, String, List, [], ◌∷◌, ◌++◌, Bool, true, false, not, Option, none, some, ◌=str◌, ltb,
  if◌then◌else◌, keep_if, length,
}
use rss_lance.Base.Assoc.{Assoc}
use rss_lance.Types.{Article, Feed, Category, LogEntry, PendingChange}

-- `OfflineConfig`.
pub record OfflineConfig : Type 0 where
  pub snapshot_interval_mins : ℕ
  pub article_days : ℕ
  pub cache_path : String

-- `offlineCache`: the tables of `ensureTables`, the flags, and the settings kept in memory.
-- `next_id` is the sequence `pending_changes_seq`, and `calls` counts the statements so far.
pub record OfflineCache : Type 0 where
  pub cached_articles : List Article
  pub cached_feeds : List Feed
  pub cached_categories : List Category
  pub cached_settings : Assoc String
  pub pending_changes : List PendingChange
  pub next_id : ℕ
  pub cached_logs : List LogEntry
  pub is_offline : Bool
  pub last_snapshot : Option ℕ
  pub settings_cache : Assoc String
  pub calls : ℕ

-- What `newOfflineCache` makes on an empty file.
abbrev pub new_offline_cache : OfflineCache
new_offline_cache = record {
  cached_articles = [];
  cached_feeds = [];
  cached_categories = [];
  cached_settings = [];
  pending_changes = [];
  next_id = 1;
  cached_logs = [];
  is_offline = false;
  last_snapshot = none;
  settings_cache = [];
  calls = 0;
}

abbrev pub tick : OfflineCache → OfflineCache
tick oc = record oc { calls = suc oc.calls }

-- One statement or transaction: true where it succeeds.
unfoldable pub run_sql :
    (ℕ → Bool) → (OfflineCache → OfflineCache) → OfflineCache → Bool × OfflineCache
run_sql duck stmt oc = if duck oc.calls then (true, tick (stmt oc)) else (false, tick oc)

-- `x IN (…)`.
unfoldable pub contains : String → List String → Bool
contains x [] = false
contains x (y ∷ ys) = let rest = contains x ys in if y =str x then true else rest

-- `ORDER BY` a time. SQL leaves the order of equal keys and the place of NULLs open: here equal keys
-- stay in the order of the table, and NULLs come last.
abbrev pub before : Option ℕ → Option ℕ → Bool
before none b = false
before (some a) none = true
before (some a) (some b) = ltb a b

abbrev pub after : Option ℕ → Option ℕ → Bool
after none b = false
after (some a) none = true
after (some a) (some b) = ltb b a

-- `less` says when a row comes before another one.
module _ {ℓ} {A : Type ℓ} (less : A → A → Bool) where
  unfoldable pub insert_by : A → List A → List A
  insert_by x [] = x ∷ []
  insert_by x (y ∷ ys) = if less x y then x ∷ y ∷ ys else y ∷ insert_by x ys

  sort_loop : List A → List A → List A
  sort_loop out [] = out
  sort_loop out (x ∷ xs) = sort_loop (insert_by x out) xs

  unfoldable pub sort_by : List A → List A
  unfolding sort_loop insert_by
  sort_by xs = sort_loop [] xs
