-- ===== src/Embedded/Settings.antt =====
-- Settings in the store over embedded DuckDB, server/db/lance_cgo.go.
use mathlib.Core.Option
use rss_lance.Base.{ℕ, String, List, [], ◌∷◌, Bool, Option, none, some, if◌then◌else◌}
use rss_lance.Base.Assoc.{Assoc, lookup, insert}
use rss_lance.Offline.{OfflineCache}
use rss_lance.Offline.Pending.{add_pending_setting_change, update_cached_setting}
use rss_lance.Offline.Reads
use rss_lance.Writer.{Lance}
use rss_lance.Store.{Result, ok}
use rss_lance.Embedded.{CgoStore, is_offline, read_rows, read_row}
use rss_lance.Embedded.Rows.{SettingRow, is_text, scan_setting, scan_all}

-- settings[k] = v, for each pair of a loop.
unfoldable pub assign_all : Assoc String → Assoc String → Assoc String
unfolding insert
assign_all m [] = m
assign_all m ((k, v) ∷ pairs) = assign_all (insert k v m) pairs

abbrev pub in_memory : Option OfflineCache → Assoc String
in_memory none = []
in_memory (some oc) = oc.settings_cache

-- The column `value` of the first row with the key.
unfoldable pub find_value : String → List SettingRow → Option (Option String)
find_value key [] = none
find_value key (r ∷ rows) = if is_text r.key key then some r.value else find_value key rows

unfoldable pub write_setting :
    (ℕ → Bool) → ℕ → String → String → Option OfflineCache → Option OfflineCache
unfolding add_pending_setting_change update_cached_setting
write_setting duck now key value none = none
write_setting duck now key value (some oc) =
    some
      (add_pending_setting_change duck key value now (update_cached_setting duck key value oc).1).1

-- `settings` is the table as DuckDB reads it.
module _ {lance : Lance} (settings : lance.Db → List SettingRow) where
  unfoldable pub get_settings :
      Bool → Bool → CgoStore lance → Result (Assoc String) × CgoStore lance
  unfolding read_rows assign_all scan_all scan_setting Reads.get_settings
  get_settings up whole s =
      read_rows up whole
        (Option.map (λ pairs. assign_all (assign_all [] pairs) (in_memory s.off_cache))
          (scan_all scan_setting (settings s.db)))
        Reads.get_settings s

  -- A value in memory is returned without a query.
  unfoldable pub memory_first :
      Option String → Bool → String → CgoStore lance → Result (Option String) × CgoStore lance
  unfolding read_row find_value Reads.get_setting
  memory_first (some v) up key s = (ok (some v), s)
  memory_first none up key s =
      read_row up (find_value key (settings s.db)) (Reads.get_setting key) s

  unfoldable pub get_setting :
      Bool → String → CgoStore lance → Result (Option String) × CgoStore lance
  unfolding is_offline lookup memory_first
  get_setting up key s =
      if is_offline s
      then (ok (lookup key (in_memory s.off_cache)), s)
      else memory_first (lookup key (in_memory s.off_cache)) up key s

module _ {lance : Lance} where
  -- What the two statements return is not looked at.
  unfoldable pub put_setting : (ℕ → Bool) → ℕ → String → String → CgoStore lance → CgoStore lance
  unfolding write_setting
  put_setting duck now key value s = record s {
    off_cache = write_setting duck now key value s.off_cache;
  }

  unfoldable pub put_settings : (ℕ → Bool) → ℕ → Assoc String → CgoStore lance → CgoStore lance
  unfolding put_setting
  put_settings duck now [] s = s
  put_settings duck now ((key, value) ∷ pairs) s =
      put_settings duck now pairs (put_setting duck now key value s)
