-- ===== src/Http/Settings/Switch.antt =====
-- What a PUT of a setting of the log does to the logger at once.
use text.Mathlib.Text.{starts_with}
use Prim.Native.String.{◌++◌ as append}
use rss_lance.Base.{
  ℕ, String, [], ◌∷◌, Bool, true, false, Option, none, some, ◌≡◌, refl, ap, ap₂, sym, subst, ◌∙◌,
  ◌=str◌, ◌&&◌, if◌then◌else◌,
}
use rss_lance.Base.Assoc.{Assoc, lookup, insert, IsMap, insert-IsMap}
use rss_lance.Offline.{OfflineCache}
use rss_lance.Offline.Reads
use rss_lance.Writer.{Lance}
use rss_lance.Store.{gives_rows, Store, Result, ok, failed, is_offline}
use rss_lance.Store.Articles.{read_through, after_query}
use rss_lance.Store.Settings.{
  merge_into, settings_of, rows, get_settings, get_setting, put_setting, put_with, map_result,
}
use rss_lance.Store.Settings.Agree.{get_setting_lem, get_setting-put_setting, put_with_cached}
use rss_lance.ServerLogger.{ServerLogger, reload_settings, should_log}
use rss_lance.ServerLogger.Enabled.{reads_as, should_log-reload_settings}
use rss_lance.Http.{Served}
use rss_lance.Http.Settings.{Codec, key_of, reload, has_log_key, after_put}
use rss_lance.Http.Settings.RoundTrip.{cli_settings, putting, served, served-putting}

merge_into-IsMap : (m pairs : Assoc String) → IsMap m → IsMap (merge_into m pairs)
unfolding merge_into
merge_into-IsMap m [] h = h
merge_into-IsMap m ((k, v) ∷ pairs) h = merge_into-IsMap (insert k v m) pairs (insert-IsMap k v m h)

either-IsMap :
    {S : Type 0} (b : Bool) (m m' : Assoc String) (x y : S)
    → IsMap m
    → IsMap m'
    → (n : Assoc String) × ((if◌then◌else◌ {A = Result (Assoc String) × S} b (ok m, x) (ok m', y)).0
        ≡ ok n)
      × IsMap n
either-IsMap true m m' x y h h' = (m, refl, h)
either-IsMap false m m' x y h h' = (m', refl, h')

-- While the queries of Lance succeed and there is a local cache, `GetSettings` returns a map.
get_settings-IsMap :
    {lance : Lance} (s : Store lance) (oc : OfflineCache)
    → s.off_cache ≡ some oc
    → IsMap oc.settings_cache
    → (m : Assoc String) × ((get_settings gives_rows s).0 ≡ ok m) × IsMap m
unfolding get_settings read_through after_query is_offline Reads.get_settings
get_settings-IsMap s oc here h = rw here (
    either-IsMap oc.is_offline _ _ _ _ h
      (merge_into-IsMap _ oc.settings_cache (merge_into-IsMap [] (rows s) tt)))

-- What a read of a setting returns, where it returns no error.
abbrev value_of : Result (Option String) → Option String
value_of (ok o) = o
value_of failed = none

put_setting_memory :
    {lance : Lance} (duck : ℕ → Bool) (now : ℕ) (key value : String) (s : Store lance)
    (oc : OfflineCache)
    → s.off_cache ≡ some oc
    → duck oc.calls ≡ true
    → (oc' : OfflineCache) × ((put_setting duck now key value s).off_cache ≡ some oc')
      × (oc'.settings_cache ≡ insert key value oc.settings_cache)
unfolding put_setting
put_setting_memory duck now key value s oc here runs =
    let (oc', writes, offline, settings) = put_with_cached duck now key value oc runs in
    (oc', ap (put_with duck now key value) here ∙ writes, settings)

-- What an optional logger writes of a category.
abbrev pub logs : String → Option ServerLogger → Bool
logs category none = false
logs category (some sl) = should_log category sl

reloaded :
    {lance : Lance} (category : String) (s : Store lance) (sl : ServerLogger) (m : Assoc String)
    → (get_settings gives_rows s).0 ≡ ok m
    → IsMap m
    → IsMap (settings_of s.off_cache)
    → IsMap (rows s)
    → should_log category (reload_settings (get_settings gives_rows s).0 sl) ≡ (
        reads_as true (value_of (get_setting gives_rows "log.api.enabled" s).0)
        && reads_as false (value_of (get_setting gives_rows (append "log.api." category) s).0))
reloaded category s sl m read h in_memory in_rows =
    let found : (j : String) → (get_setting gives_rows j s).0 ≡ ok (lookup j m) =
      λ j. get_setting_lem gives_rows j s in_memory in_rows ∙ ap (map_result (lookup j)) read in
    rw (read, found "log.api.enabled", found (append "log.api." category))
      (should_log-reload_settings category m sl h)

-- What a read of a setting returns behind a write of one.
abbrev pub value_after : String → String → String → Result (Option String) → Option String
value_after key encoded j before = if key =str j then some encoded else value_of before

value_of-if :
    (b : Bool) (encoded : String) (before : Result (Option String))
    → value_of (if b then ok (some encoded) else before)
      ≡ (if b then some encoded else value_of before)
value_of-if true encoded before = refl
value_of-if false encoded before = refl

module _ {lance : Lance} (duck : ℕ → Bool) (now : ℕ) (codec : Codec) (uuid : ℕ → String) where
  open codec use {Json}

  logs-after_put :
      (category key : String) (v : Json) (sl : ServerLogger) (s : Served (Store lance))
      → starts_with key "log." ≡ true
      → logs category
          (after_put
            (cli_settings lance duck now)
            codec
            now
            uuid
            (some sl)
            ((key, v) ∷ [])
            s).logger
        ≡ should_log category (reload_settings (get_settings gives_rows s.state).0 sl)
  unfolding after_put has_log_key reload
  logs-after_put category key v sl s h = rw h refl

  -- While the queries of Lance succeed, after a PUT of a setting whose key starts with "log." the logger
  -- writes an entry of a category exactly where "log.api.enabled" is missing or reads as true, and the
  -- flag of the category is there and reads as true: the setting that was put has its new value, and
  -- every other setting the one that a read of it returned before. The local cache exists and runs the
  -- statement, and Lance and the settings in memory have each key once.
  pub logs-served-putting :
      (category path : String) (v : Json) (encoded : String) (sl : ServerLogger)
      (s : Served (Store lance)) (oc : OfflineCache)
      → (key_of path =str "") ≡ false
      → starts_with (key_of path) "log." ≡ true
      → s.logger ≡ some sl
      → s.state.off_cache ≡ some oc
      → duck oc.calls ≡ true
      → codec.marshal v ≡ some encoded
      → IsMap oc.settings_cache
      → IsMap (rows s.state)
      → logs category (served duck now codec uuid (putting path v) s).1.logger ≡ (
          let value : String → Option String =
            λ j. value_after (key_of path) encoded j (get_setting gives_rows j s.state).0 in
          reads_as true (value "log.api.enabled")
          && reads_as false (value (append "log.api." category)))
  unfolding put_setting
  logs-served-putting category path v encoded sl s oc h fits has here runs enc in_memory in_rows =
      let key = key_of path in
      let st = put_setting duck now key encoded s.state in
      let (oc', here', cached) = put_setting_memory duck now key encoded s.state oc here runs in
      let memory' : IsMap oc'.settings_cache =
        subst IsMap (sym cached) (insert-IsMap key encoded oc.settings_cache in_memory) in
      let (m, read, once) = get_settings-IsMap st oc' here' memory' in
      let found : (j : String)
          → value_of (get_setting gives_rows j st).0
            ≡ value_after key encoded j (get_setting gives_rows j s.state).0 =
        λ j.
          ap value_of
            (get_setting-put_setting duck now gives_rows key j encoded s.state oc here runs)
          ∙ value_of-if (key =str j) encoded (get_setting gives_rows j s.state).0 in
      ap (λ r. logs category r.1.logger) (served-putting duck now codec uuid path v encoded s h enc)
      ∙ ap
          (λ l.
            logs category
              (after_put (cli_settings lance duck now) codec now uuid l ((key, v) ∷ [])
                (record s { state = st })).logger)
          has
      ∙ logs-after_put category key v sl (record s { state = st }) fits
      ∙ reloaded category st sl m read once (subst (λ o. IsMap (settings_of o)) (sym here') memory')
          in_rows
      ∙ ap₂ (λ a b. reads_as true a && reads_as false b) (found "log.api.enabled")
          (found (append "log.api." category))
