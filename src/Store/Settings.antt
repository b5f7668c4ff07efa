-- ===== src/Store/Settings.antt =====
-- Settings in the store: `GetSettings`, `GetSetting`, `PutSetting` and `PutSettings` of
-- server/db/lance_cli.go. `q` says what a query of Lance gives.
pub mod Agree
use rss_lance.Base.{
  ℕ, String, List, [], ◌∷◌, Bool, true, false, Option, none, some, ◌≡◌, refl, sym, ◌∙◌, ap, arith,
  eq_iff, ◌=str◌, if◌then◌else◌, map, Bool-cases, Option-cases, inl, inr,
}
use rss_lance.Base.Assoc.{Assoc, lookup, insert, lookup-insert, IsMap}
use rss_lance.Offline.{OfflineCache, run_sql}
use rss_lance.Offline.Pending.{add_pending_setting_change, update_cached_setting, insert_change}
use rss_lance.Offline.Reads
use rss_lance.Writer.{Lance, Setting}
use rss_lance.Store.{
  Store, Query, gives_rows, gives_nothing, gives_error, Result, ok, failed, is_offline, go_offline,
}
use rss_lance.Store.Articles.{read_through, after_query}

-- settings[k] = v, for each pair of the loop.
unfoldable pub merge_into : Assoc String → Assoc String → Assoc String
unfolding insert
merge_into m [] = m
merge_into m ((k, v) ∷ pairs) = merge_into (insert k v m) pairs

abbrev pub or_else : Option String → Option String → Option String
or_else none b = b
or_else (some a) b = some a

abbrev pub row_pair : Setting → String × String
row_pair s = (s.key, s.value)

-- The settings in memory, where there is a local cache.
abbrev pub settings_of : Option OfflineCache → Assoc String
settings_of none = []
settings_of (some oc) = oc.settings_cache

unfoldable pub put_with :
    (ℕ → Bool) → ℕ → String → String → Option OfflineCache → Option OfflineCache
unfolding add_pending_setting_change update_cached_setting
put_with duck now key value none = none
put_with duck now key value (some oc) =
    some
      (add_pending_setting_change duck key value now (update_cached_setting duck key value oc).1).1

module _ {lance : Lance} where
  abbrev pub rows : Store lance → Assoc String
  rows s = map row_pair (lance.settings s.db)

  unfoldable pub get_settings : Query → Store lance → Result (Assoc String) × Store lance
  unfolding read_through after_query merge_into Reads.get_settings
  get_settings q =
      read_through q (λ s. merge_into (merge_into [] (rows s)) (settings_of s.off_cache))
        (λ s. merge_into [] (settings_of s.off_cache)) Reads.get_settings

  -- A value in memory is returned without a query.
  unfoldable pub first_cached :
      Option String → Query → String → Store lance → Result (Option String) × Store lance
  unfolding read_through after_query lookup Reads.get_setting
  first_cached (some v) q key s = (ok (some v), s)
  first_cached none q key s =
      read_through q (λ t. lookup key (rows t)) (λ t. none) (Reads.get_setting key) s

  unfoldable pub get_setting : Query → String → Store lance → Result (Option String) × Store lance
  unfolding is_offline lookup first_cached
  get_setting q key s =
      if is_offline s
      then (ok (lookup key (settings_of s.off_cache)), s)
      else first_cached (lookup key (settings_of s.off_cache)) q key s

  -- What the two statements return is not looked at.
  unfoldable pub put_setting : (ℕ → Bool) → ℕ → String → String → Store lance → Store lance
  unfolding put_with
  put_setting duck now key value s = record s {
    off_cache = put_with duck now key value s.off_cache;
  }

  unfoldable pub put_settings : (ℕ → Bool) → ℕ → Assoc String → Store lance → Store lance
  unfolding put_setting
  put_settings duck now [] s = s
  put_settings duck now ((key, value) ∷ pairs) s =
      put_settings duck now pairs (put_setting duck now key value s)

abbrev pub map_result : {A B : Type 0} → (A → B) → Result A → Result B
map_result f (ok a) = ok (f a)
map_result f failed = failed
