-- ===== src/Writer.antt =====
-- The writer of the Lance tables, server/db/lance_writer.go, over the lancedb-go tables.
pub mod Groups
pub mod SettingsBatch
use rss_lance.Base.{
  ℕ, String, List, [], ◌∷◌, ◌++◌, Bool, true, false, not, ◌&&◌, Option, none, some, ◌=str◌, ◌≡◌,
  if◌then◌else◌, map,
}
use rss_lance.Base.Assoc.{Assoc, insert}
use rss_lance.Types.{Article, LogEntry, Override}
use rss_lance.Offline.{contains}

-- A row of the settings table.
pub record Setting : Type 0 where
  pub key : String
  pub value : String

-- The payload of an update of articles: the columns to set.
pub record ArticleUpdate : Type 0 where
  pub set_read : Option Bool
  pub set_starred : Option Bool
  pub at : ℕ

abbrev pub set_or_keep : Option Bool → Bool → Bool
set_or_keep none b = b
set_or_keep (some v) b = v

abbrev pub apply_update : ArticleUpdate → Article → Article
apply_update u a = record a {
  is_read = set_or_keep u.set_read a.is_read;
  is_starred = set_or_keep u.set_starred a.is_starred;
  updated_at = some u.at;
}

abbrev pub where_then {ℓ} : {A : Type ℓ} → (A → Bool) → (A → A) → A → A
where_then test change a = if test a then change a else a

-- lancedb-go, of which the program calls `Update`, `Add` and `Delete` of a table. `Db` is what is
-- stored. A call returns true where it returns no error. It changes its own table only, an update
-- changes all rows that match and no other, and a call that fails changes nothing: a Lance table
-- has a new version after a write, or the old one.
pub record Lance : Type 1 where
  pub Db : Type 0
  pub articles : Db → List Article
  pub settings : Db → List Setting
  pub logs : Db → List LogEntry
  pub update_articles : (Article → Bool) → ArticleUpdate → Db → Bool × Db
  pub update_settings : (Setting → Bool) → String → Db → Bool × Db
  pub add_logs : List LogEntry → Db → Bool × Db
  pub articles-update_articles :
      (test : Article → Bool) (u : ArticleUpdate) (db : Db)
      → articles (update_articles test u db).1 ≡ (
          if (update_articles test u db).0
          then map (where_then test (apply_update u)) (articles db)
          else articles db)
  pub articles-update_settings :
      (test : Setting → Bool) (v : String) (db : Db)
      → articles (update_settings test v db).1 ≡ articles db
  pub settings-update_articles :
      (test : Article → Bool) (u : ArticleUpdate) (db : Db)
      → settings (update_articles test u db).1 ≡ settings db
  pub settings-update_settings :
      (test : Setting → Bool) (v : String) (db : Db)
      → settings (update_settings test v db).1 ≡ (
          if (update_settings test v db).0
          then map (where_then test (λ s. record s { value = v })) (settings db)
          else settings db)
  pub logs-add_logs :
      (es : List LogEntry) (db : Db)
      → logs (add_logs es db).1 ≡ (if (add_logs es db).0 then logs db ++ es else logs db)

-- `updateKey` of `FlushOverrides`: equal where the payloads are.
same_flag : Option Bool → Option Bool → Bool
same_flag none none = true
same_flag (some true) (some true) = true
same_flag (some false) (some false) = true
same_flag _ _ = false

unfoldable pub same_override : Override → Override → Bool
unfolding same_flag
same_override a b = same_flag a.is_read b.is_read && same_flag a.is_starred b.is_starred

-- Keys that share a payload. `same` is the equality of payloads.
module _ {K : Type 0} (same : K → K → Bool) where
  -- groups[k] = append(groups[k], id)
  unfoldable pub add_to_group : K → String → List (K × List String) → List (K × List String)
  add_to_group k id [] = (k, id ∷ []) ∷ []
  add_to_group k id ((j, ids) ∷ groups) =
      if same j k then (j, ids ++ id ∷ []) ∷ groups else (j, ids) ∷ add_to_group k id groups

  -- The loop over the map.
  unfoldable pub group_loop : List (K × List String) → Assoc K → List (K × List String)
  unfolding add_to_group
  group_loop groups [] = groups
  group_loop groups ((id, k) ∷ m) = group_loop (add_to_group k id groups) m

-- The payload of a group: `none` where no column is to be set.
unfoldable pub payload_of : Option Bool → Option Bool → ℕ → Option ArticleUpdate
payload_of none none now = none
payload_of (some r) s now = some (record { set_read = some r; set_starred = s; at = now })
payload_of none (some s) now = some (record { set_read = none; set_starred = some s; at = now })

unfoldable pub payload : Override → ℕ → Option ArticleUpdate
unfolding payload_of
payload ov now = payload_of ov.is_read ov.is_starred now

module _ (lance : Lance) where
  open lance use {Db, update_articles, update_settings, add_logs}

  -- `MarkAllRead`.
  unfoldable pub mark_all_read : String → ℕ → Db → Bool × Db
  mark_all_read feed now db =
      update_articles (λ a. (a.feed_id =str feed) && not a.is_read)
        (record { set_read = some true; set_starred = none; at = now }) db

  -- One group. A group with nothing to set is passed over.
  unfoldable pub flush_group : Option ArticleUpdate → List String → Db → Bool × Db
  unfolding contains
  flush_group none ids db = (true, db)
  flush_group (some u) ids db = update_articles (λ a. contains a.article_id ids) u db

  unfoldable pub flush_groups : List (Override × List String) → ℕ → Db → Bool × Db
  unfolding flush_group payload
  flush_groups [] now db = (true, db)
  flush_groups ((ov, ids) ∷ groups) now db =
      let (ok, db') = flush_group (payload ov now) ids db in
      let rest = flush_groups groups now db' in if ok then rest else (false, db')

  -- `FlushOverrides`.
  unfoldable pub flush_overrides : Assoc Override → ℕ → Db → Bool × Db
  unfolding flush_groups group_loop same_override
  flush_overrides overrides now db = flush_groups (group_loop same_override [] overrides) now db

  unfoldable pub put_groups : List (String × List String) → Db → Bool × Db
  unfolding contains
  put_groups [] db = (true, db)
  put_groups ((value, keys) ∷ groups) db =
      let (ok, db') = update_settings (λ s. contains s.key keys) value db in
      let rest = put_groups groups db' in if ok then rest else (false, db')

  -- `PutSettingsBatch`.
  unfoldable pub put_settings_batch : Assoc String → Db → Bool × Db
  unfolding put_groups group_loop
  put_settings_batch settings db = put_groups (group_loop ◌=str◌ [] settings) db
