-- ===== src/Embedded/Twin/Settings.antt =====
-- The reads and writes of settings in the two stores.
use mathlib.Core.Option
use rss_lance.Base.{
  ℕ, String, List, [], ◌∷◌, Bool, true, false, Option, none, some, ◌≡◌, refl, ap, ap₂, ◌∙◌, arith,
  if◌then◌else◌, map,
}
use rss_lance.Base.Assoc.{Assoc, lookup, insert}
use rss_lance.Offline.{OfflineCache}
use rss_lance.Writer.{Lance, Setting}
use rss_lance.Store
use rss_lance.Store.{Store, Result, ok}
use rss_lance.Store.Articles.{read_through}
use rss_lance.Store.Settings as Cli
use rss_lance.Store.Settings.{merge_into, settings_of, row_pair, first_cached, put_with}
use rss_lance.Embedded.{CgoStore, is_offline}
use rss_lance.Embedded.Rows.{SettingRow, scan_setting, scan_all}
use rss_lance.Embedded.Commute.{scan_all-map}
use rss_lance.Embedded.Settings as Cgo
use rss_lance.Embedded.Settings.{assign_all, in_memory, find_value, memory_first, write_setting}
use rss_lance.Embedded.Twin.{
  cli_query, setting_row, as_cli, with_cli, read_rows_twin, read_row_twin,
}

assign_all_twin : (m pairs : Assoc String) → assign_all m pairs ≡ merge_into m pairs
unfolding assign_all merge_into
assign_all_twin m [] = refl
assign_all_twin m ((k, v) ∷ pairs) = assign_all_twin (insert k v m) pairs

in_memory_twin : (o : Option OfflineCache) → in_memory o ≡ settings_of o
in_memory_twin none = refl
in_memory_twin (some oc) = refl

find_value-map :
    (key : String) (rows : List Setting)
    → find_value key (map setting_row rows) ≡ Option.map some (lookup key (map row_pair rows))
unfolding find_value lookup
find_value-map key [] = refl
find_value-map key (r ∷ rows) = ground (arith, find_value-map key rows)

write_setting_twin :
    (duck : ℕ → Bool) (now : ℕ) (key value : String) (o : Option OfflineCache)
    → write_setting duck now key value o ≡ put_with duck now key value o
unfolding write_setting put_with
write_setting_twin duck now key value none = refl
write_setting_twin duck now key value (some oc) = refl

offline_twin : {lance : Lance} (s : CgoStore lance) → is_offline s ≡ Store.is_offline (as_cli s)
unfolding is_offline Store.is_offline
offline_twin s = refl

module _ {lance : Lance} (rows : lance.Db → List SettingRow)
    (full : (db : lance.Db) → rows db ≡ map setting_row (lance.settings db)) (up : Bool)
    (s : CgoStore lance) where
  pub get_settings_twin :
      with_cli (Cgo.get_settings rows up true s) ≡ Cli.get_settings (cli_query up) (as_cli s)
  unfolding Cgo.get_settings Cli.get_settings scan_setting read_through
  get_settings_twin =
      let overlaid : Assoc String → Assoc String =
        λ pairs. assign_all (assign_all [] pairs) (in_memory s.off_cache) in
      let pairs : Assoc String = map row_pair (lance.settings s.db) in
      read_rows_twin up s (λ t. merge_into [] (settings_of t.off_cache)) _
        (ap (λ v. Option.map overlaid (scan_all scan_setting v)) (full s.db)
          ∙ ap (Option.map overlaid)
              (scan_all-map setting_row row_pair scan_setting (λ r. refl) (lance.settings s.db))
          ∙ ap some (
              assign_all_twin (assign_all [] pairs) (in_memory s.off_cache)
              ∙ ap₂ merge_into (assign_all_twin [] pairs) (in_memory_twin s.off_cache)))

  memory_first_twin :
      (key : String) (o : Option String)
      → with_cli (memory_first rows o up key s) ≡ first_cached o (cli_query up) key (as_cli s)
  unfolding memory_first first_cached read_through
  memory_first_twin key (some v) = refl
  memory_first_twin key none =
      read_row_twin up s _ (λ t. none) _
        (ap (find_value key) (full s.db) ∙ find_value-map key (lance.settings s.db))

  pub get_setting_twin :
      (key : String)
      → with_cli (Cgo.get_setting rows up key s) ≡ Cli.get_setting (cli_query up) key (as_cli s)
  unfolding Cgo.get_setting Cli.get_setting
  get_setting_twin key =
      rw (offline_twin s, in_memory_twin s.off_cache)
        (elim (Store.is_offline (as_cli s))
          as (λ b.
            with_cli (
              if b
              then (ok (lookup key (settings_of s.off_cache)), s)
              else memory_first rows (lookup key (settings_of s.off_cache)) up key s)
            ≡ (if b
                then (ok (lookup key (settings_of s.off_cache)), as_cli s)
                else first_cached (lookup key (settings_of s.off_cache)) (cli_query up) key
                    (as_cli s))) [
                      | true ↦ refl
                      | false ↦ memory_first_twin key (lookup key (settings_of s.off_cache))
                    ])

module _ {lance : Lance} (duck : ℕ → Bool) (now : ℕ) where
  pub put_setting_twin :
      (key value : String) (s : CgoStore lance)
      → as_cli (Cgo.put_setting duck now key value s)
        ≡ Cli.put_setting duck now key value (as_cli s)
  unfolding Cgo.put_setting Cli.put_setting
  put_setting_twin key value s = simp (write_setting_twin)

  pub put_settings_twin :
      (pairs : Assoc String) (s : CgoStore lance)
      → as_cli (Cgo.put_settings duck now pairs s) ≡ Cli.put_settings duck now pairs (as_cli s)
  unfolding Cgo.put_settings Cli.put_settings
  put_settings_twin [] s = refl
  put_settings_twin ((key, value) ∷ pairs) s =
      put_settings_twin pairs (Cgo.put_setting duck now key value s)
      ∙ ap (Cli.put_settings duck now pairs) (put_setting_twin key value s)
