-- ===== src/Embedded.antt =====
-- The store over DuckDB as a library, server/db/lance_cgo.go: the twin of the store over the DuckDB
-- CLI for the builds with cgo. It reads through database/sql, whose Scan turns down a NULL where the
-- program has a string, a number or a Boolean; the CLI store reads the same NULL as "", 0 or false.
-- The entries that these functions log about themselves are not modelled.
pub mod Rows
pub mod Articles
pub mod Feeds
pub mod Settings
pub mod Flush
pub mod Logs
pub mod Nulls
pub mod Commute
pub mod Twin
use rss_lance.Base.{Bool, true, false, not, Option, none, some, if◌then◌else◌}
use rss_lance.WriteCache.{WriteCache}
use rss_lance.Offline.{OfflineCache}
use rss_lance.Writer.{Lance}
use rss_lance.Store.{Result, ok, failed}

-- `cgoStore`: the overlay, the local cache (nil where its file did not open), and what Lance holds.
pub record CgoStore (lance : Lance) : Type 0 where
  pub cache : WriteCache
  pub off_cache : Option OfflineCache
  pub db : lance.Db

offline_flag : Option OfflineCache → Bool
offline_flag none = false
offline_flag (some oc) = oc.is_offline

-- A compare-and-swap from false to true leaves true.
abbrev raise_flag : Option OfflineCache → Option OfflineCache
raise_flag none = none
raise_flag (some oc) = some (record oc { is_offline = true })

-- What the local cache answers, where there is one; else the error is returned.
abbrev from_cache : {A : Type 0} → Option OfflineCache → (OfflineCache → A) → Result A
from_cache none f = failed
from_cache (some oc) f = ok (f oc)

-- The rows of a query, none where a Scan fails; `whole` says whether `rows.Err()` is nil at the end.
abbrev pub scanned_rows : {A : Type 0} → Bool → Option A → Result A
scanned_rows whole none = failed
scanned_rows true (some a) = ok a
scanned_rows false (some a) = failed

module _ {lance : Lance} where
  -- `isOffline`.
  unfoldable pub is_offline : CgoStore lance → Bool
  unfolding offline_flag
  is_offline s = offline_flag s.off_cache

  -- `goOffline`.
  unfoldable pub go_offline : CgoStore lance → CgoStore lance
  go_offline s = record s { off_cache = raise_flag s.off_cache }

  -- A read of many rows, `online`, with `conn.Query`, which fails where `up` is false: then the store goes
  -- offline. An error behind that is returned as it is.
  unfoldable pub read_rows :
      {A : Type 0}
      → Bool
      → Bool
      → Option A
      → (OfflineCache → A)
      → CgoStore lance
      → Result A × CgoStore lance
  unfolding is_offline go_offline
  read_rows up whole online offline s =
      if is_offline s
      then (from_cache s.off_cache offline, s)
      else if not up
      then (from_cache s.off_cache offline, go_offline s)
      else (scanned_rows whole online, s)

  -- What `row.Scan` returns for the first row, if any: an error is one of the Scan or of the query.
  unfoldable pub scanned_row :
      {A : Type 0}
      → Option (Option A)
      → (OfflineCache → Option A)
      → CgoStore lance
      → Result (Option A) × CgoStore lance
  unfolding go_offline
  scanned_row none offline s = (ok none, s)
  scanned_row (some (some a)) offline s = (ok (some a), s)
  scanned_row (some none) offline s = (from_cache s.off_cache offline, go_offline s)

  -- A read of one row with `conn.QueryRow`.
  unfoldable pub read_row :
      {A : Type 0}
      → Bool
      → Option (Option A)
      → (OfflineCache → Option A)
      → CgoStore lance
      → Result (Option A) × CgoStore lance
  unfolding is_offline scanned_row
  read_row up online offline s =
      if is_offline s
      then (from_cache s.off_cache offline, s)
      else scanned_row (if up then online else some none) offline s
