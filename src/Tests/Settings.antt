-- ===== src/Tests/Settings.antt =====
-- Settings: a batch written to Lance, and the reads of the store.
use rss_lance.Base.{String, [], ◌∷◌, true, some, ◌≡◌, refl, map}
use rss_lance.Base.Assoc.{Assoc, lookup, IsMap}
use rss_lance.Offline.{new_offline_cache}
use rss_lance.Writer.{put_settings_batch}
use rss_lance.Writer.SettingsBatch.{set_one, put_settings_batch_lem}
use rss_lance.Store.{gives_rows, Store, ok}
use rss_lance.Store.Settings.{get_settings, get_setting, put_setting, rows, settings_of, map_result}
use rss_lance.Store.Settings.Agree.{get_setting_lem, get_setting-put_setting}
use rss_lance.Tests.Data.{list_lance, always, two_articles, fresh_store}

-- "font" has no row.
abbrev batch : Assoc String
batch = ("theme", "light") ∷ ("font", "light") ∷ []

batch-IsMap : IsMap batch
unfolding lookup
batch-IsMap = (refl, (refl, tt))

batch_run : (put_settings_batch list_lance batch two_articles).0 ≡ true
unfolding put_settings_batch
batch_run = refl

put_settings_batch_lem_example :
    (put_settings_batch list_lance batch two_articles).1.setting_rows
    ≡ map (λ s. set_one (lookup s.key batch) s) two_articles.setting_rows
put_settings_batch_lem_example =
    put_settings_batch_lem list_lance batch two_articles batch-IsMap batch_run

-- A store with a setting in memory that Lance does not have yet.
abbrev changed_store : Store list_lance
changed_store = record fresh_store {
  off_cache = some (record new_offline_cache { settings_cache = ("theme", "light") ∷ [] });
}

memory-IsMap : IsMap (settings_of changed_store.off_cache)
unfolding lookup
memory-IsMap = (refl, tt)

rows-IsMap : IsMap (rows changed_store)
unfolding lookup
rows-IsMap = (refl, (refl, tt))

get_setting_lem_example :
    (get_setting gives_rows "size" changed_store).0
    ≡ map_result (lookup "size") (get_settings gives_rows changed_store).0
get_setting_lem_example = get_setting_lem gives_rows "size" changed_store memory-IsMap rows-IsMap

get_setting-put_setting_example :
    (get_setting gives_rows "size" (put_setting always 5 "size" "12" fresh_store)).0
    ≡ ok (some "12")
get_setting-put_setting_example =
    get_setting-put_setting always 5 gives_rows "size" "size" "12" fresh_store new_offline_cache
      refl refl
