-- ===== src/Writer/SettingsBatch.antt =====
-- `PutSettingsBatch` against an update for each key.
use rss_lance.Base.{
  String, List, [], ◌∷◌, true, Option, none, some, ◌≡◌, refl, ap, sym, ◌∙◌, eq_iff, ◌=str◌, map,
  Bool-cases, inl, inr, false≢true,
}
use rss_lance.Base.Assoc.{Assoc, lookup, IsMap}
use rss_lance.Offline.{contains}
use rss_lance.Writer.{Lance, Setting, where_then, group_loop, put_groups, put_settings_batch}
use rss_lance.Writer.Groups.{hits, value_or, hits-group_loop, map-compose, map-ext, map_self}

abbrev set_value : String → Setting → Setting
set_value v s = record s { value = v }

abbrev set_each : List String → Setting → Setting
set_each [] s = s
set_each (v ∷ vs) s = set_each vs (set_value v s)

abbrev pub set_one : Option String → Setting → Setting
set_one none s = s
set_one (some v) s = set_value v s

set_each-value_or : (o : Option String) (s : Setting) → set_each (value_or o []) s ≡ set_one o s
set_each-value_or none s = refl
set_each-value_or (some v) s = refl

set_each_lem :
    (v : String) (keys : List String) (gs : List (String × List String)) (s : Setting)
    → let t = where_then (λ (c : Setting). contains c.key keys) (set_value v) s in
      set_each (hits t.key gs) t ≡ set_each (hits s.key ((v, keys) ∷ gs)) s
set_each_lem v keys gs s = elim (Bool-cases (contains s.key keys)) [ inl e ↦ rw e | inr e ↦ rw e ]

module _ (lance : Lance) where
  open lance use {Db, settings, update_settings, settings-update_settings}

  put_groups_lem :
      (gs : List (String × List String)) (db : Db)
      → (put_groups lance gs db).0 ≡ true
      → settings (put_groups lance gs db).1 ≡ map (λ s. set_each (hits s.key gs) s) (settings db)
  unfolding put_groups
  put_groups_lem [] db ok = sym (map_self (λ s. s) (settings db) (λ s. refl))
  put_groups_lem ((v, keys) ∷ gs) db ok =
      let test = λ (s : Setting). contains s.key keys in
      elim (Bool-cases (update_settings test v db).0) [
        | inr e ↦ absurd (false≢true (rw e at ok))
        | inl e ↦
            let db' : Db = (update_settings test v db).1 in
            let ok' : (put_groups lance gs db').0 ≡ true = rw e at ok in
            let done : settings db' ≡ map (where_then test (set_value v)) (settings db) =
              settings-update_settings test v db ∙ rw e in
            rw e (
              put_groups_lem gs db' ok'
              ∙ ap (map (λ s. set_each (hits s.key gs) s)) done
              ∙ map-compose _ _ (settings db)
              ∙ map-ext _ _ (settings db) (λ s. set_each_lem v keys gs s))
      ]

  -- `PutSettingsBatch` groups the keys by value and issues one update for each group. Where it
  -- returns no error, each row of the settings table whose key is in the map has the value of its
  -- key, and no other row has changed: a key that has no row gets none.
  pub put_settings_batch_lem :
      (batch : Assoc String) (db : Db)
      → IsMap batch
      → (put_settings_batch lance batch db).0 ≡ true
      → settings (put_settings_batch lance batch db).1
        ≡ map (λ s. set_one (lookup s.key batch) s) (settings db)
  unfolding put_settings_batch
  put_settings_batch_lem batch db d ok =
      put_groups_lem (group_loop ◌=str◌ [] batch) db ok
      ∙ map-ext _ _ (settings db) (λ s.
        ap (λ h. set_each h s)
          (hits-group_loop ◌=str◌ (λ a b. (eq_iff a b).0) s.key [] batch d (λ k q. refl))
        ∙ set_each-value_or (lookup s.key batch) s)
