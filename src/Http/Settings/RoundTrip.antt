-- ===== src/Http/Settings/RoundTrip.antt =====
-- What the handler answers for a setting right after it has been written, over the store of
-- server/db/lance_cli.go.
use rss_lance.Base.{
  ℕ, String, [], ◌∷◌, Bool, true, false, Option, none, some, ◌≡◌, refl, ap, sym, ◌∙◌, arith,
  eq_refl, ◌=str◌, if◌then◌else◌,
}
use rss_lance.Base.Assoc.{Assoc}
use rss_lance.Offline.{OfflineCache}
use rss_lance.Writer.{Lance}
use rss_lance.Store.{gives_rows, Store, Result, ok, failed}
use rss_lance.Store.Articles.{read_through, after_query}
use rss_lance.Store.Settings.{get_settings, get_setting, put_setting, put_settings}
use rss_lance.Store.Settings.Agree.{get_setting-put_setting}
use rss_lance.ServerLogger.{ServerLogger}
use rss_lance.Http.{Served, get, put, Response, json_ok}
use rss_lance.Http.Settings.{
  SettingStore, Codec, Request, Payload, setting, done, key_of, decoded, one_response, get_one,
  reload, after_put, put_response, put_encoded, put_one, route, handle,
}

-- The store over the DuckDB CLI as the handler uses it, while the queries of Lance succeed. A write
-- gives no error.
abbrev pub cli_settings : (lance : Lance) → (ℕ → Bool) → ℕ → SettingStore
cli_settings lance duck now = record {
  State = Store lance;
  get_settings = get_settings gives_rows;
  get_setting = get_setting gives_rows;
  put_setting = λ key value s. (true, put_setting duck now key value s);
  put_settings = λ pairs s. (true, put_settings duck now pairs s);
}

-- GET and PUT of one setting by its path.
abbrev pub getting : {Json : Type 0} → String → Request Json
getting path = record { method = get; path = path; value = none; pairs = none }

abbrev pub putting : {Json : Type 0} → String → Json → Request Json
putting path v = record { method = put; path = path; value = some v; pairs = none }

get_settings_keeps : {lance : Lance} (s : Store lance) → (get_settings gives_rows s).1 ≡ s
unfolding get_settings read_through after_query
get_settings_keeps s = ground arith

state_of_if :
    {S : Type 0} (b : Bool) (x y : Served S) {z : S}
    → x.state ≡ z
    → y.state ≡ z
    → (if b then x else y).state ≡ z
state_of_if true x y h g = h
state_of_if false x y h g = g

module _ {lance : Lance} (duck : ℕ → Bool) (now : ℕ) (codec : Codec) (uuid : ℕ → String) where
  open codec use {Json}

  abbrev pub served :
      Request Json → Served (Store lance) → Response (Payload Json) × Served (Store lance)
  served = handle (cli_settings lance duck now) codec now uuid

  pub after_put-state :
      (logger : Option ServerLogger) (pairs : Assoc Json) (s : Served (Store lance))
      → (after_put (cli_settings lance duck now) codec now uuid logger pairs s).state ≡ s.state
  unfolding after_put reload
  after_put-state none pairs s = refl
  after_put-state (some sl) pairs s = state_of_if _ _ _ (get_settings_keeps s.state) refl

  one_response_alike :
      (key : String) (r : Result (Option String)) (st st' : Store lance)
      (s s' : Served (Store lance))
      → (one_response (cli_settings lance duck now) codec now uuid key (r, st) s).0
        ≡ (one_response (cli_settings lance duck now) codec now uuid key (r, st') s').0
  unfolding one_response
  one_response_alike key (ok none) st st' s s' = refl
  one_response_alike key (ok (some v)) st st' s s' = refl
  one_response_alike key failed st st' s s' = refl

  -- What GET answers of what the store returns.
  abbrev told : String → Result (Option String) → Served (Store lance) → Response (Payload Json)
  told key r s = (one_response (cli_settings lance duck now) codec now uuid key (r, s.state) s).0

  served-getting :
      (path : String) (s : Served (Store lance))
      → (key_of path =str "") ≡ false
      → (served (getting path) s).0
        ≡ told (key_of path) (get_setting gives_rows (key_of path) s.state).0 s
  unfolding handle route get_one
  served-getting path s h =
      rw h
        (one_response_alike (key_of path) (get_setting gives_rows (key_of path) s.state).0 _ _ s s)

  pub served-putting :
      (path : String) (v : Json) (encoded : String) (s : Served (Store lance))
      → (key_of path =str "") ≡ false
      → codec.marshal v ≡ some encoded
      → served (putting path v) s ≡ (
        json_ok done,
        after_put
            (cli_settings lance duck now)
            codec
            now
            uuid
            s.logger
            ((key_of path, v) ∷ [])
            (record s { state = put_setting duck now (key_of path) encoded s.state }),
      )
  unfolding handle route put_one put_encoded put_response
  served-putting path v encoded s h e = rw (h, e) refl

  -- What a GET answers behind a PUT, of what the store answered before it.
  read_after :
      (path : String) (key encoded : String) (s s' : Served (Store lance)) (oc : OfflineCache)
      → (key_of path =str "") ≡ false
      → s.state.off_cache ≡ some oc
      → duck oc.calls ≡ true
      → s'.state ≡ put_setting duck now key encoded s.state
      → (served (getting path) s').0
        ≡ told
            (key_of path)
            (if key =str key_of path
              then ok (some encoded)
              else (get_setting gives_rows (key_of path) s.state).0)
            s
  read_after path key encoded s s' oc h here runs same =
      served-getting path s' h
      ∙ ap (λ x. told (key_of path) (get_setting gives_rows (key_of path) x).0 s') same
      ∙ ap (λ r. told (key_of path) r s')
          (get_setting-put_setting duck now gives_rows key (key_of path) encoded s.state oc here
            runs)
      ∙ one_response_alike (key_of path) _ s'.state s.state s' s

  told_value :
      (key : String) (v : Json) (encoded : String) (s : Served (Store lance))
      → codec.unmarshal encoded ≡ some v
      → told key (ok (some encoded)) s ≡ json_ok (setting key v)
  unfolding one_response decoded
  told_value key v encoded s e = rw e refl

  -- While the queries of Lance succeed, a PUT of a value to the path of a setting answers that it is
  -- done; a GET of the path then answers the setting with that value; and a GET of the path of another
  -- setting answers what it did before, whether or not the PUT made the logger read its settings again.
  -- The local cache exists and runs the statement, and the value's JSON reads back as the value.
  pub served-putting-getting :
      (path other : String) (v : Json) (encoded : String) (s : Served (Store lance))
      (oc : OfflineCache)
      → (key_of path =str "") ≡ false
      → (key_of other =str "") ≡ false
      → (key_of path =str key_of other) ≡ false
      → s.state.off_cache ≡ some oc
      → duck oc.calls ≡ true
      → codec.marshal v ≡ some encoded
      → codec.unmarshal encoded ≡ some v
      → let s' = (served (putting path v) s).1 in
        ((served (putting path v) s).0 ≡ json_ok done)
        × ((served (getting path) s').0 ≡ json_ok (setting (key_of path) v))
        × ((served (getting other) s').0 ≡ (served (getting other) s).0)
  served-putting-getting path other v encoded s oc h h' ne here runs enc dec =
      let put = served-putting path v encoded s h enc in
      let s' = (served (putting path v) s).1 in
      let written : s'.state ≡ put_setting duck now (key_of path) encoded s.state =
        ap (λ r. r.1.state) put
        ∙ after_put-state s.logger ((key_of path, v) ∷ [])
            (record s { state = put_setting duck now (key_of path) encoded s.state }) in
      (
        ap (λ r. r.0) put,
        read_after path (key_of path) encoded s s' oc h here runs written
            ∙ rw (eq_refl (key_of path)) (told_value (key_of path) v encoded s dec),
        read_after other (key_of path) encoded s s' oc h' here runs written
            ∙ rw ne (sym (served-getting other s h')),
      )
