-- ===== src/Store/Settings/Agree.antt =====
-- Reads and writes of settings in the store: `GetSetting` and `GetSettings` agree, and a written
-- setting is what the next read answers.
use rss_lance.Base.{
  ℕ, String, [], ◌∷◌, Bool, true, false, Option, none, some, ◌≡◌, refl, sym, ◌∙◌, ap, arith, eq_iff,
  ◌=str◌, if◌then◌else◌, map, Option-cases,
}
use rss_lance.Base.Assoc.{Assoc, lookup, insert, lookup-insert, IsMap}
use rss_lance.WriteCache.{WriteCache}
use rss_lance.Offline.{OfflineCache}
use rss_lance.Offline.Reads
use rss_lance.Writer.{Lance}
use rss_lance.Store.{Query, gives_rows, gives_nothing, gives_error, Store, Result, ok, is_offline}
use rss_lance.Store.Articles.{read_through, after_query}
use rss_lance.Store.Settings.{
  merge_into, or_else, settings_of, row_pair, rows, get_settings, get_setting, first_cached,
  put_with, put_setting, map_result,
}

lookup-merge_into :
    (k : String) (m pairs : Assoc String)
    → IsMap pairs
    → lookup k (merge_into m pairs) ≡ or_else (lookup k pairs) (lookup k m)
unfolding merge_into lookup
lookup-merge_into k m [] h = refl
lookup-merge_into k m ((j, v) ∷ pairs) h =
    ground
      (arith, lookup-merge_into k (insert j v m) pairs h.1, lookup-insert j k v m, eq_iff j k, h.0)

or_else-none : (o : Option String) → or_else o none ≡ o
or_else-none none = refl
or_else-none (some a) = refl

lookup-merged :
    (k : String) (cached from_lance : Assoc String)
    → IsMap cached
    → IsMap from_lance
    → lookup k (merge_into (merge_into [] from_lance) cached)
      ≡ or_else (lookup k cached) (lookup k from_lance)
unfolding lookup
lookup-merged k cached from_lance h g =
    lookup-merge_into k (merge_into [] from_lance) cached h
    ∙ ap (or_else (lookup k cached)) (lookup-merge_into k [] from_lance g ∙ or_else-none _)

-- What a read answers, of its key in memory and in Lance.
abbrev answer : Bool → Query → Option String → Option String → Option String
answer true q cached row = cached
answer false gives_rows cached row = or_else cached row
answer false gives_nothing cached row = cached
answer false gives_error cached row = cached

answer-if :
    (offline : Bool) (q : Query) (same : Bool) (v : String) (cached row : Option String)
    → ok (answer offline q (if same then some v else cached) row)
      ≡ (if same then ok (some v) else ok (answer offline q cached row))
answer-if offline q same v cached row = ground arith

module _ (lance : Lance) where
  agree :
      (q : Query) (key : String) (c : WriteCache) (o : Option OfflineCache) (db : lance.Db)
      → IsMap (settings_of o)
      → IsMap (map row_pair (lance.settings db))
      → (get_setting {lance = lance} q key (record { cache = c; off_cache = o; db = db })).0
        ≡ map_result
            (lookup key)
            (get_settings {lance = lance} q (record { cache = c; off_cache = o; db = db })).0
  unfolding get_setting get_settings first_cached read_through after_query is_offline
      Reads.get_settings Reads.get_setting lookup
  agree gives_rows key c none db h g =
      ap ok (sym (lookup-merged key [] (map row_pair (lance.settings db)) h g))
  agree gives_nothing key c none db h g = refl
  agree gives_error key c none db h g = refl
  agree gives_rows key c (some oc) db h g = ground (
    arith,
    lookup-merged key oc.settings_cache (map row_pair (lance.settings db)) h g,
    Option-cases (lookup key oc.settings_cache),
  )
  agree gives_nothing key c (some oc) db h g = ground (
    arith,
    lookup-merge_into key [] oc.settings_cache h,
    or_else-none (lookup key oc.settings_cache),
    Option-cases (lookup key oc.settings_cache),
  )
  agree gives_error key c (some oc) db h g =
      ground (arith, Option-cases (lookup key oc.settings_cache))

  get_setting_cached :
      (q : Query) (j : String) (c : WriteCache) (oc : OfflineCache) (db : lance.Db)
      → (get_setting {lance = lance} q j (record { cache = c; off_cache = some oc; db = db })).0
        ≡ ok (
            answer oc.is_offline q
              (lookup j oc.settings_cache)
              (lookup j (map row_pair (lance.settings db))))
  unfolding get_setting first_cached read_through after_query is_offline Reads.get_setting lookup
  get_setting_cached gives_rows j c oc db =
      ground (arith, Option-cases (lookup j oc.settings_cache))
  get_setting_cached gives_nothing j c oc db =
      ground (arith, Option-cases (lookup j oc.settings_cache))
  get_setting_cached gives_error j c oc db =
      ground (arith, Option-cases (lookup j oc.settings_cache))

module _ {lance : Lance} where
  -- `GetSetting` of a key is what `GetSettings` has under the key, online, offline, and where the query
  -- of Lance fails or is rejected, provided that Lance and the settings in memory have each key once.
  pub get_setting_lem :
      (q : Query) (key : String) (s : Store lance)
      → IsMap (settings_of s.off_cache)
      → IsMap (rows s)
      → (get_setting q key s).0 ≡ map_result (lookup key) (get_settings q s).0
  get_setting_lem q key s h g = agree lance q key s.cache s.off_cache s.db h g

pub put_with_cached :
    (duck : ℕ → Bool) (now : ℕ) (key value : String) (oc : OfflineCache)
    → duck oc.calls ≡ true
    → (oc' : OfflineCache) × (put_with duck now key value (some oc) ≡ some oc')
      × (oc'.is_offline ≡ oc.is_offline)
      × (oc'.settings_cache ≡ insert key value oc.settings_cache)
unfolding put_with
put_with_cached duck now key value oc runs = (_, refl, ground (arith, runs), ground (arith, runs))

module _ {lance : Lance} where
  -- What `PutSetting` does to the reads, where the local cache exists and runs the statement: a read of
  -- the key answers the new value, a read of another key answers what it did, online, offline, and
  -- where the query of Lance fails or is rejected.
  pub get_setting-put_setting :
      (duck : ℕ → Bool) (now : ℕ) (q : Query) (key j value : String) (s : Store lance)
      (oc : OfflineCache)
      → s.off_cache ≡ some oc
      → duck oc.calls ≡ true
      → (get_setting q j (put_setting duck now key value s)).0
        ≡ (if key =str j then ok (some value) else (get_setting q j s).0)
  unfolding put_setting
  get_setting-put_setting duck now q key j value s oc here runs =
      let (oc', put, offline, settings) = put_with_cached duck now key value oc runs in
      let reads : Option OfflineCache → Result (Option String) =
        λ o. (get_setting q j (record s { off_cache = o })).0 in
      let before : reads s.off_cache
          ≡ ok (answer oc.is_offline q (lookup j oc.settings_cache) (lookup j (rows s))) =
        ap reads here ∙ get_setting_cached lance q j s.cache oc s.db in
      ap reads (ap (put_with duck now key value) here ∙ put)
      ∙ get_setting_cached lance q j s.cache oc' s.db
      ∙ rw (offline, settings, lookup-insert key j value oc.settings_cache, before)
          (answer-if oc.is_offline q (key =str j) value (lookup j oc.settings_cache)
            (lookup j (rows s)))
