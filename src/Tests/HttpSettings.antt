-- ===== src/Tests/HttpSettings.antt =====
-- Requests for settings. A value is its own JSON text.
use text.Mathlib.Text.{starts_with}
use Prim.Native.String.{◌++◌ as append}
use rss_lance.Base.{ℕ, String, [], true, false, ◌&&◌, Option, some, ◌≡◌, refl, ◌=str◌}
use rss_lance.Base.Assoc.{lookup, IsMap}
use rss_lance.Offline.{new_offline_cache}
use rss_lance.Store.{gives_rows, Store}
use rss_lance.Store.Settings.{rows, get_setting}
use rss_lance.ServerLogger.{new_server_logger}
use rss_lance.ServerLogger.Enabled.{reads_as}
use rss_lance.Http.{Served, json_ok, trim_prefix, trim_slashes}
use rss_lance.Http.Settings.{Codec, setting, done, key_of}
use rss_lance.Http.Settings.RoundTrip.{served, putting, getting, served-putting-getting}
use rss_lance.Http.Settings.Switch.{logs, value_after, logs-served-putting}
use rss_lance.Tests.Data.{list_lance, always, fresh_store}

abbrev texts : Codec
texts = record {
  Json = String;
  marshal = λ j. some j;
  unmarshal = λ t. some t;
  text = λ t. t;
  pair = λ k v. v;
}

abbrev uuids : ℕ → String
uuids n = "u"

abbrev start : Served (Store list_lance)
start = record { state = fresh_store; logger = some new_server_logger; written = [] }

keys :
    (key_of "/api/settings/theme/" ≡ "theme")
    × (key_of "/api/settings/size" ≡ "size")
    × (key_of "/api/settings/log.api.requests" ≡ "log.api.requests")
    × (key_of "/api/settings/" ≡ "")
unfolding key_of trim_prefix trim_slashes
keys = (refl, refl, refl, refl)

theme_key : (key_of "/api/settings/theme" =str "") ≡ false
unfolding key_of trim_prefix trim_slashes
theme_key = refl

size_key : (key_of "/api/settings/size" =str "") ≡ false
unfolding key_of trim_prefix trim_slashes
size_key = refl

other_key : (key_of "/api/settings/theme" =str key_of "/api/settings/size") ≡ false
unfolding key_of trim_prefix trim_slashes
other_key = refl

served-putting-getting_example :
    let s' = (served always 5 texts uuids (putting "/api/settings/theme" "\"light\"") start).1 in
    ((served always 5 texts uuids (putting "/api/settings/theme" "\"light\"") start).0
      ≡ json_ok done)
    × ((served always 5 texts uuids (getting "/api/settings/theme") s').0
        ≡ json_ok (setting (key_of "/api/settings/theme") "\"light\""))
    × ((served always 5 texts uuids (getting "/api/settings/size") s').0
        ≡ (served always 5 texts uuids (getting "/api/settings/size") start).0)
served-putting-getting_example =
    served-putting-getting always 5 texts uuids "/api/settings/theme" "/api/settings/size"
      "\"light\"" "\"light\"" start new_offline_cache theme_key size_key other_key refl refl refl
      refl

log_key : (key_of "/api/settings/log.api.requests" =str "") ≡ false
unfolding key_of trim_prefix trim_slashes
log_key = refl

log_prefix : starts_with (key_of "/api/settings/log.api.requests") "log." ≡ true
unfolding key_of trim_prefix trim_slashes
log_prefix = refl

rows-IsMap : IsMap (rows fresh_store)
unfolding lookup
rows-IsMap = (refl, (refl, tt))

logs-served-putting_example :
    logs "requests"
      (served always 5 texts uuids (putting "/api/settings/log.api.requests" "true") start).1.logger
    ≡ (let value : String → Option String = λ j.
          value_after
            (key_of "/api/settings/log.api.requests")
            "true"
            j
            (get_setting gives_rows j fresh_store).0 in
        reads_as true (value "log.api.enabled")
        && reads_as false (value (append "log.api." "requests")))
logs-served-putting_example =
    logs-served-putting always 5 texts uuids "requests" "/api/settings/log.api.requests" "true"
      "true" new_server_logger start new_offline_cache log_key log_prefix refl refl refl refl tt
      rows-IsMap
