-- ===== src/LogPath/Trim.antt =====
-- `TrimLogs` and `TrimLogsByAge` of server/db/lance_cli.go, and `DeleteOldLogs` of
-- server/db/lance_writer.go. Times are in microseconds.
pub mod Newest
use rss_lance.Base.{
  ℕ, ◌-◌, ◌*◌, List, [], ◌∷◌, Bool, true, false, not, Option, none, some, ◌≡◌, ltb, leb,
  if◌then◌else◌, keep_if, length, drop,
}
use rss_lance.Base.Int.{ℤ, pos, negsuc}
use rss_lance.Types.{LogEntry}
use rss_lance.Offline.{sort_by, after}
use rss_lance.Store.{Query, gives_rows, gives_nothing, gives_error}
use rss_lance.Writer.{Lance}

-- `timestamp < '…'`, which does not hold of a NULL.
abbrev pub before_time : ℕ → Option ℕ → Bool
before_time t none = false
before_time t (some u) = ltb u t

abbrev pub older_than : ℕ → LogEntry → Bool
older_than t e = before_time t e.timestamp

-- `Delete` of the table log_api in lancedb-go, by the filter `timestamp < '…'` with the text of a time,
-- or with an empty text. A call returns true where it returns no error, and one that fails changes
-- nothing. `exists` says whether the directory of the table is there, `count` and
-- `cutoff` what the two queries give.
pub record LogTable (lance : Lance) : Type 0 where
  pub delete : Option ℕ → lance.Db → Bool × lance.Db
  pub logs-delete :
      (t : ℕ) (db : lance.Db)
      → lance.logs (delete (some t) db).1 ≡ (
          if (delete (some t) db).0
          then keep_if (λ e. not (older_than t e)) (lance.logs db)
          else lance.logs db)

abbrev pub later_first : LogEntry → LogEntry → Bool
later_first a b = after a.timestamp b.timestamp

abbrev pub microseconds_of_day : ℕ
microseconds_of_day = 86400000000

module _ {lance : Lance} (table : LogTable lance) where
  -- `DeleteOldLogs`.
  abbrev pub delete_old_logs : Option ℕ → lance.Db → Bool × lance.Db
  delete_old_logs cutoff db = table.delete cutoff db

  -- The row that the second query finds, if any, has the cutoff.
  abbrev pub delete_behind : List LogEntry → lance.Db → Bool × lance.Db
  delete_behind [] db = (true, db)
  delete_behind (e ∷ es) db = delete_old_logs e.timestamp db

  -- A query without rows ends the trim without an error.
  abbrev pub without_rows : Query → lance.Db → Bool × lance.Db → Bool × lance.Db
  without_rows gives_rows db rest = rest
  without_rows gives_nothing db rest = (true, db)
  without_rows gives_error db rest = (false, db)

  -- `TrimLogs`: true where it returns no error.
  unfoldable pub trim_logs : Bool → Query → Query → ℤ → lance.Db → Bool × lance.Db
  unfolding sort_by
  trim_logs exists count cutoff (negsuc n) db = (true, db)
  trim_logs exists count cutoff (pos max_entries) db =
      if leb max_entries 0
      then (true, db)
      else if not exists
      then (true, db)
      else without_rows count db (
          if leb (length (lance.logs db)) max_entries
          then (true, db)
          else without_rows cutoff db
              (delete_behind (drop (max_entries - 1) (sort_by later_first (lance.logs db))) db))

  -- `TrimLogsByAge`. A cutoff before the first time there is deletes nothing.
  unfoldable pub trim_logs_by_age : Bool → ℕ → ℤ → lance.Db → Bool × lance.Db
  trim_logs_by_age exists now (negsuc n) db = (true, db)
  trim_logs_by_age exists now (pos max_age_days) db =
      if leb max_age_days 0
      then (true, db)
      else if not exists
      then (true, db)
      else delete_old_logs (some (now - max_age_days * microseconds_of_day)) db
