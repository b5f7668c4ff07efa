-- ===== src/Offline/Pending.antt =====
-- Changes made by the user, kept until they are flushed to Lance: `addPendingChange`,
-- `addPendingSettingChange`, `getPendingChanges`, `clearPendingChanges`, and the updates of the
-- cached rows.
use rss_lance.Base.{
  ℕ, suc, String, List, [], ◌∷◌, ◌++◌, Bool, true, false, not, ◌&&◌, Option, none, some, ◌=str◌,
  if◌then◌else◌, keep_if, length, map,
}
use rss_lance.Base.Assoc.{insert}
use rss_lance.Types.{Article, PendingChange}
use rss_lance.Offline.{OfflineCache, run_sql}

abbrev pub change_of : ℕ → String → String → String → ℕ → PendingChange
change_of id article_id action value now = record {
  id = id;
  article_id = article_id;
  action = action;
  value = value;
  timestamp = now;
}

-- INSERT INTO pending_changes, with the next number of the sequence.
unfoldable pub insert_change : String → String → String → ℕ → OfflineCache → OfflineCache
insert_change article_id action value now oc = record oc {
  pending_changes = oc.pending_changes ++ change_of oc.next_id article_id action value now ∷ [];
  next_id = suc oc.next_id;
}

abbrev pub is_setting_of : String → PendingChange → Bool
is_setting_of key c = (c.action =str "setting") && (c.article_id =str key)

-- The columns that `updateCachedArticle` sets, where the pointers are not both nil.
unfoldable pub set_columns : Option Bool → Option Bool → ℕ → Article → Article
set_columns none none now a = a
set_columns (some r) none now a = record a { is_read = r; updated_at = some now }
set_columns none (some s) now a = record a { is_starred = s; updated_at = some now }
set_columns (some r) (some s) now a = record a {
  is_read = r;
  is_starred = s;
  updated_at = some now;
}

-- UPDATE cached_articles … WHERE …
abbrev pub update_where : (Article → Bool) → (Article → Article) → List Article → List Article
update_where test change rows = map (λ a. if test a then change a else a) rows

module _ (duck : ℕ → Bool) where
  unfoldable pub add_pending_change :
      String → String → String → ℕ → OfflineCache → Bool × OfflineCache
  unfolding run_sql insert_change
  add_pending_change article_id action value now oc =
      run_sql duck (insert_change article_id action value now) oc

  -- Two statements: the old change of the key goes, then the new one comes.
  unfoldable pub add_pending_setting_change :
      String → String → ℕ → OfflineCache → Bool × OfflineCache
  unfolding run_sql insert_change
  add_pending_setting_change key value now oc =
      let (deleted, oc') =
        run_sql duck
          (λ s. record s {
            pending_changes = keep_if (λ c. not (is_setting_of key c)) s.pending_changes;
          })
          oc in
      if deleted then run_sql duck (insert_change key "setting" value now) oc' else (false, oc')

  unfoldable pub update_cached_article :
      String → Option Bool → Option Bool → ℕ → OfflineCache → Bool × OfflineCache
  unfolding run_sql set_columns
  update_cached_article id none none now oc = (true, oc)
  update_cached_article id is_read is_starred now oc =
      run_sql duck
        (λ s. record s {
          cached_articles =
              update_where (λ a. a.article_id =str id) (set_columns is_read is_starred now)
                s.cached_articles;
        })
        oc

  unfoldable pub mark_all_read_cached : String → ℕ → OfflineCache → Bool × OfflineCache
  unfolding run_sql
  mark_all_read_cached feed now oc =
      run_sql duck
        (λ s. record s {
          cached_articles =
              update_where (λ a. a.feed_id =str feed)
                (λ a. record a { is_read = true; updated_at = some now }) s.cached_articles;
        })
        oc

  -- The table first; the map in memory only where that succeeds.
  unfoldable pub update_cached_setting : String → String → OfflineCache → Bool × OfflineCache
  unfolding run_sql insert
  update_cached_setting key value oc =
      let (ran, oc') =
        run_sql duck (λ s. record s { cached_settings = insert key value s.cached_settings }) oc in
      if ran
      then (true, record oc' { settings_cache = insert key value oc'.settings_cache })
      else (false, oc')

  -- The ids are those of the sequence, so the order of the table is the order of the ids.
  unfoldable pub get_pending_changes : OfflineCache → Bool × List PendingChange × OfflineCache
  unfolding run_sql
  get_pending_changes oc =
      let (ran, oc') = run_sql duck (λ s. s) oc in
      (ran, if ran then oc.pending_changes else [], oc')

  unfoldable pub pending_count : OfflineCache → ℕ × OfflineCache
  unfolding run_sql
  pending_count oc =
      let (ran, oc') = run_sql duck (λ s. s) oc in
      (if ran then length oc.pending_changes else 0, oc')

  unfoldable pub clear_pending_changes : OfflineCache → Bool × OfflineCache
  unfolding run_sql
  clear_pending_changes oc = run_sql duck (λ s. record s { pending_changes = [] }) oc

  unfoldable pub evict_read_articles : OfflineCache → Bool × OfflineCache
  unfolding run_sql
  evict_read_articles oc =
      run_sql duck
        (λ s. record s { cached_articles = keep_if (λ a. not a.is_read) s.cached_articles }) oc
