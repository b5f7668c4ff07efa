-- ===== src/ServerLogger.antt =====
-- The logger of the API server, `ServerLogger` of server/api/logs.go: which entries it writes, by the
-- settings it has read last.
pub mod Enabled
use rss_lance.Base.{
  ℕ, String, List, [], ◌∷◌, Bool, true, false, not, ◌&&◌, ◌||◌, Option, none, some, ◌=str◌,
  if◌then◌else◌,
}
use Prim.Native.String.{◌++◌ as append}
use text.Mathlib.Text.{starts_with}
use rss_lance.Base.Assoc.{Assoc, lookup, insert}
use rss_lance.Types.{LogEntry}
use rss_lance.Store.{Result, ok, failed}

-- `ServerLogger`. Before the first `ReloadSettings` the map is nil, which reads as an empty one.
pub record ServerLogger : Type 0 where
  pub settings : Assoc Bool

abbrev pub new_server_logger : ServerLogger
new_server_logger = record { settings = [] }

unfoldable pub is_on : String → Bool
is_on v = v =str "true" || v =str "\"true\"" || v =str "1"

unfoldable pub flags_of : Assoc Bool → Assoc String → Assoc Bool
unfolding insert is_on
flags_of flags [] = flags
flags_of flags ((k, v) ∷ settings) =
    flags_of (if starts_with k "log.api." then insert k (is_on v) flags else flags) settings

-- `ReloadSettings`, given what `GetSettings` returns.
unfoldable pub reload_settings : Result (Assoc String) → ServerLogger → ServerLogger
unfolding flags_of
reload_settings (ok settings) sl = record { settings = flags_of [] settings }
reload_settings failed sl = sl

abbrev present_and_off : Option Bool → Bool
present_and_off none = false
present_and_off (some b) = not b

abbrev present_and_on : Option Bool → Bool
present_and_on none = false
present_and_on (some b) = b

unfoldable pub should_log : String → ServerLogger → Bool
unfolding lookup
should_log category sl =
    if present_and_off (lookup "log.api.enabled" sl.settings)
    then false
    else present_and_on (lookup (append "log.api." category) sl.settings)

-- `Log`: the entry to pass to `WriteLog`, or none.
unfoldable pub log : ServerLogger → ℕ → String → String → String → String → String → Option LogEntry
unfolding should_log
log sl now uuid level category message details =
    if not (should_log category sl)
    then none
    else some (record {
      log_id = uuid;
      timestamp = some now;
      level = level;
      category = category;
      service = "";
      message = message;
      details = details;
      created_at = none;
    })

abbrev details_of : Option String → String
details_of none = ""
details_of (some details) = details

-- `LogJSON`, given what json.Marshal makes of the data; its error is not looked at.
unfoldable pub log_json :
    ServerLogger → ℕ → String → String → String → String → Option String → Option LogEntry
unfolding should_log log
log_json sl now uuid level category message encoded =
    if not (should_log category sl)
    then none
    else log sl now uuid level category message (details_of encoded)
