-- ===== src/Http/Settings.antt =====
-- `SettingsHandler` of server/api/settings.go, over a store of settings and encoding/json.
pub mod RoundTrip
pub mod Switch
use text.Mathlib.Text.{starts_with}
use rss_lance.Base.{
  ℕ, String, List, [], ◌∷◌, ◌++◌, Bool, true, false, not, ◌&&◌, ◌||◌, Option, none, some, ◌=str◌,
  if◌then◌else◌, length, map,
}
use Prim.Native.String.{◌++◌ as append}
use rss_lance.Base.Assoc.{Assoc}
use rss_lance.Types.{LogEntry}
use rss_lance.Store.{Result, ok, failed}
use rss_lance.ServerLogger.{ServerLogger, reload_settings, log_json}
use rss_lance.Http.{
  Served, add_entry, is_get, is_put, Method, Response, json_ok, json_error, http_error, trim_prefix,
  trim_slashes,
}

-- What the handler asks of the store. A write gives true where it returns no error.
pub record SettingStore : Type 1 where
  pub State : Type 0
  pub get_settings : State → Result (Assoc String) × State
  pub get_setting : String → State → Result (Option String) × State
  pub put_setting : String → String → State → Bool × State
  pub put_settings : Assoc String → State → Bool × State

-- encoding/json: values, json.Marshal and json.Unmarshal, a text as a value, and the value
-- {"key": …, "value": …}.
pub record Codec : Type 1 where
  pub Json : Type 0
  pub marshal : Json → Option String
  pub unmarshal : String → Option Json
  pub text : String → Json
  pub pair : String → Json → Json

-- What is read of a request: `value` is the field of the body that `putOne` decodes, and `pairs` the
-- object that `putBatch` does, none where the body does not decode.
pub record Request (Json : Type 0) : Type 0 where
  pub method : Method
  pub path : String
  pub value : Option Json
  pub pairs : Option (Assoc Json)

-- The values that are sent as JSON.
pub data Payload (Json : Type 0) : Type 0 where
  all : Assoc Json → Payload Json
  setting : String → Json → Payload Json
  done : Payload Json

-- The key of a path.
unfoldable pub key_of : String → String
unfolding trim_prefix trim_slashes
key_of path = trim_slashes (trim_prefix path "/api/settings")

-- `now` is the clock, and `uuid n` the UUID of the n-th entry.
module _ (store : SettingStore) (codec : Codec) (now : ℕ) (uuid : ℕ → String) where
  open store use {State}
  open codec use {Json}

  abbrev parsed_or : Json → Option Json → Json
  parsed_or fallback none = fallback
  parsed_or fallback (some parsed) = parsed

  -- A stored text that is no JSON is the value itself.
  unfoldable pub decoded : String → Json
  decoded v = parsed_or (codec.text v) (codec.unmarshal v)

  all_response :
      Result (Assoc String) × State → Served State → Response (Payload Json) × Served State
  unfolding decoded
  all_response (ok settings, st) s =
      (json_ok (all (map (λ p. (p.0, decoded p.1)) settings)), record s { state = st })
  all_response (failed, st) s = (json_error 500, record s { state = st })

  -- `getAll`.
  get_all : Served State → Response (Payload Json) × Served State
  unfolding all_response
  get_all s = all_response (store.get_settings s.state) s

  unfoldable pub one_response :
      String
      → Result (Option String) × State
      → Served State
      → Response (Payload Json) × Served State
  unfolding decoded
  one_response key (ok (some v), st) s =
      (json_ok (setting key (decoded v)), record s { state = st })
  one_response key (ok none, st) s = (http_error 404, record s { state = st })
  one_response key (failed, st) s = (json_error 500, record s { state = st })

  -- `getOne`.
  unfoldable pub get_one : String → Served State → Response (Payload Json) × Served State
  unfolding one_response
  get_one key s = one_response key (store.get_setting key s.state) s

  -- The entries for the changes.
  log_changes : ServerLogger → Assoc Json → List LogEntry → List LogEntry
  unfolding log_json
  log_changes sl [] es = es
  log_changes sl ((k, v) ∷ pairs) es = log_changes sl pairs (
      add_entry
        (log_json sl now (uuid (length es)) "info" "settings_changes" (append "Setting changed: " k)
          (codec.marshal (codec.pair k v)))
        es)

  unfoldable pub has_log_key : Assoc Json → Bool
  has_log_key [] = false
  has_log_key ((k, v) ∷ pairs) = starts_with k "log." || has_log_key pairs

  unfoldable pub reload : ServerLogger → Served State → Served State
  unfolding reload_settings
  reload sl s =
      let (settings, st) = store.get_settings s.state in
      record s { state = st; logger = some (reload_settings settings sl) }

  -- What follows a write, where there is a logger.
  unfoldable pub after_put : Option ServerLogger → Assoc Json → Served State → Served State
  unfolding log_changes has_log_key reload
  after_put none pairs s = s
  after_put (some sl) pairs s =
      let s' = record s { written = log_changes sl pairs s.written } in
      if has_log_key pairs then reload sl s' else s'

  unfoldable pub put_response :
      Bool × State → Assoc Json → Served State → Response (Payload Json) × Served State
  unfolding after_put
  put_response (true, st) pairs s =
      (json_ok done, after_put s.logger pairs (record s { state = st }))
  put_response (false, st) pairs s = (json_error 500, record s { state = st })

  unfoldable pub put_encoded :
      String → Json → Option String → Served State → Response (Payload Json) × Served State
  unfolding put_response
  put_encoded key v none s = (http_error 400, s)
  put_encoded key v (some encoded) s =
      put_response (store.put_setting key encoded s.state) ((key, v) ∷ []) s

  -- `putOne`.
  unfoldable pub put_one :
      String → Option Json → Served State → Response (Payload Json) × Served State
  unfolding put_encoded
  put_one key none s = (http_error 400, s)
  put_one key (some v) s = put_encoded key v (codec.marshal v) s

  abbrev with_pair : String → Option String → Option (Assoc String) → Option (Assoc String)
  with_pair k none rest = none
  with_pair k (some encoded) none = none
  with_pair k (some encoded) (some rest) = some ((k, encoded) ∷ rest)

  -- The loop of `putBatch` that encodes the values.
  unfoldable pub encode_all : Assoc Json → Option (Assoc String)
  encode_all [] = some []
  encode_all ((k, v) ∷ pairs) = with_pair k (codec.marshal v) (encode_all pairs)

  put_all_encoded :
      Assoc Json → Option (Assoc String) → Served State → Response (Payload Json) × Served State
  unfolding put_response
  put_all_encoded pairs none s = (http_error 400, s)
  put_all_encoded pairs (some encoded) s = put_response (store.put_settings encoded s.state) pairs s

  -- `putBatch`.
  unfoldable pub put_batch :
      Option (Assoc Json) → Served State → Response (Payload Json) × Served State
  unfolding encode_all put_all_encoded
  put_batch none s = (http_error 400, s)
  put_batch (some pairs) s = put_all_encoded pairs (encode_all pairs) s

  -- `Handle`, with the key of the path.
  unfoldable pub route :
      Request Json → String → Served State → Response (Payload Json) × Served State
  unfolding get_all get_one put_one put_batch
  route r key s =
      if key =str "" && is_get r.method
      then get_all s
      else if key =str "" && is_put r.method
      then put_batch r.pairs s
      else if not (key =str "") && is_get r.method
      then get_one key s
      else if not (key =str "") && is_put r.method
      then put_one key r.value s
      else (http_error 404, s)

  unfoldable pub handle : Request Json → Served State → Response (Payload Json) × Served State
  unfolding route key_of
  handle r s = route r (key_of r.path) s
