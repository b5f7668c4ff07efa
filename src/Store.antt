-- ===== src/Store.antt =====
-- The store, server/db/lance_cli.go: reads from Lance with the overlay of pending changes, writes
-- into the local cache, and the switch to and from offline mode. The entries that these functions
-- log about themselves are not modelled.
pub mod Articles
pub mod Feeds
pub mod Settings
pub mod Flush
pub mod Linked
pub mod Visible
pub mod MarkedRead
pub mod Changed
use rss_lance.Base.{
  ℕ, String, List, [], ◌∷◌, Bool, true, false, not, ◌&&◌, Option, none, some, ◌=str◌, if◌then◌else◌,
  keep_if, map,
}
use rss_lance.Types.{Article}
use rss_lance.WriteCache.{WriteCache}
use rss_lance.Offline.{OfflineCache}
use rss_lance.Writer.{Lance}

-- A value, or an error.
pub data Result (A : Type 0) : Type 0 where
  ok : A → Result A
  failed : Result A

-- What a query gives: its rows, no rows and no error where DuckDB rejects the statement, or an error
-- of the pipe to DuckDB.
pub data Query : Type 0 where
  gives_rows : Query
  gives_nothing : Query
  gives_error : Query

-- `cliStore`: the overlay, the local cache (nil where its file did not open), and what Lance holds.
pub record Store (lance : Lance) : Type 0 where
  pub cache : WriteCache
  pub off_cache : Option OfflineCache
  pub db : lance.Db

offline_of : Option OfflineCache → Bool
offline_of none = false
offline_of (some oc) = oc.is_offline

abbrev switch_off : Option OfflineCache → Option OfflineCache
switch_off none = none
switch_off (some oc) = some (record oc { is_offline = true })

module _ {lance : Lance} where
  -- `isOffline`.
  unfoldable pub is_offline : Store lance → Bool
  unfolding offline_of
  is_offline s = offline_of s.off_cache

  -- `goOffline`.
  unfoldable pub go_offline : Store lance → Store lance
  go_offline s = record s { off_cache = switch_off s.off_cache }
