-- ===== src/Replay.antt =====
-- The flush of pending changes to Lance, `Replay` of server/db/offline_cache.go.
pub mod Collapse
pub mod Effect
pub mod Race
use rss_lance.Base.{
  ℕ, String, List, [], ◌∷◌, ◌++◌, Bool, true, false, Option, none, some, ◌==◌, ◌=str◌,
  if◌then◌else◌, length,
}
use rss_lance.Base.Assoc.{Assoc, lookup, insert}
use rss_lance.Types.{Override, PendingChange}
use rss_lance.WriteCache.{override_or_new}
use rss_lance.Offline.{OfflineCache}
use rss_lance.Offline.Pending.{get_pending_changes, clear_pending_changes, evict_read_articles}
use rss_lance.Writer.{Lance, mark_all_read, flush_overrides, put_settings_batch}

-- What the loop over the changes collects.
pub record Collapsed : Type 0 where
  pub article_states : Assoc Override
  pub mark_all_read_feeds : List String
  pub setting_changes : List PendingChange

abbrev pub nothing_yet : Collapsed
nothing_yet = record { article_states = []; mark_all_read_feeds = []; setting_changes = [] }

-- `getOrCreateReplayState`, with the write through the pointer that it returns.
unfoldable pub update_state : String → (Override → Override) → Assoc Override → Assoc Override
update_state id change m = insert id (change (override_or_new (lookup id m))) m

-- `s.IsRead = &v` and `s.IsStarred = &v`.
abbrev pub read_as : Bool → Override → Override
read_as v o = record o { is_read = some v }

abbrev pub star_as : Bool → Override → Override
star_as v o = record o { is_starred = some v }

-- The switch on the action.
pub data Action : Type 0 where
  read unread star unstar mark_all setting other : Action

unfoldable pub action_of : String → Action
action_of s =
    if s =str "read"
    then read
    else if s =str "unread"
    then unread
    else if s =str "star"
    then star
    else if s =str "unstar"
    then unstar
    else if s =str "mark_all_read"
    then mark_all
    else if s =str "setting"
    then setting
    else other

unfoldable pub collapse_as : Action → PendingChange → Collapsed → Collapsed
unfolding update_state
collapse_as read c s = record s {
  article_states = update_state c.article_id (read_as true) s.article_states;
}
collapse_as unread c s = record s {
  article_states = update_state c.article_id (read_as false) s.article_states;
}
collapse_as star c s = record s {
  article_states = update_state c.article_id (star_as true) s.article_states;
}
collapse_as unstar c s = record s {
  article_states = update_state c.article_id (star_as false) s.article_states;
}
collapse_as mark_all c s = record s {
  mark_all_read_feeds = s.mark_all_read_feeds ++ c.article_id ∷ [];
}
collapse_as setting c s = record s { setting_changes = s.setting_changes ++ c ∷ [] }
collapse_as other c s = s

-- One round of the loop.
unfoldable pub collapse_one : Collapsed → PendingChange → Collapsed
unfolding collapse_as action_of
collapse_one s c = collapse_as (action_of c.action) c s

unfoldable pub collapse_loop : Collapsed → List PendingChange → Collapsed
unfolding collapse_one
collapse_loop s [] = s
collapse_loop s (c ∷ cs) = collapse_loop (collapse_one s c) cs

unfoldable pub settings_map : Assoc String → List PendingChange → Assoc String
unfolding insert
settings_map m [] = m
settings_map m (c ∷ cs) = settings_map (insert c.article_id c.value m) cs

-- What follows the writes: an error of the eviction is only logged.
unfoldable pub replay_end : (ℕ → Bool) → OfflineCache → Bool × OfflineCache
unfolding clear_pending_changes evict_read_articles
replay_end duck oc =
    let (cleared, oc') = clear_pending_changes duck oc in
    let (evicted, oc'') = evict_read_articles duck oc' in
    if cleared then (true, oc'') else (false, oc')

module _ (lance : Lance) where
  open lance use {Db}

  unfoldable pub replay_marks : List String → ℕ → Db → Bool × Db
  unfolding mark_all_read
  replay_marks [] now db = (true, db)
  replay_marks (feed ∷ feeds) now db =
      let (ok, db') = mark_all_read lance feed now db in
      let rest = replay_marks feeds now db' in if ok then rest else (false, db')

  -- A call with an empty map is left out.
  unfoldable pub replay_states : Assoc Override → ℕ → Db → Bool × Db
  unfolding flush_overrides
  replay_states [] now db = (true, db)
  replay_states (s ∷ m) now db = flush_overrides lance (s ∷ m) now db

  unfoldable pub replay_settings : List PendingChange → Db → Bool × Db
  unfolding put_settings_batch settings_map
  replay_settings [] db = (true, db)
  replay_settings (c ∷ cs) db = put_settings_batch lance (settings_map [] (c ∷ cs)) db

  -- The three writes to Lance, in order. The first that fails ends the replay.
  unfoldable pub replay_apply : List PendingChange → ℕ → Db → Bool × Db
  unfolding replay_marks replay_states replay_settings collapse_loop
  replay_apply changes now db =
      let s = collapse_loop nothing_yet changes in
      let (ok, db') = replay_marks s.mark_all_read_feeds now db in
      let (ok', db'') = replay_states s.article_states now db' in
      let third = replay_settings s.setting_changes db'' in
      if ok then (if ok' then third else (false, db'')) else (false, db')

  -- `Replay`, where no other call touches the cache meanwhile: `none` is an error, otherwise the
  -- number of changes.
  unfoldable pub replay : (ℕ → Bool) → ℕ → OfflineCache → Db → Option ℕ × OfflineCache × Db
  unfolding get_pending_changes replay_apply replay_end
  replay duck now oc db =
      let (got, changes, oc1) = get_pending_changes duck oc in
      let (applied, db') = replay_apply changes now db in
      let (ended, oc2) = replay_end duck oc1 in
      if got
      then (if length changes == 0
          then (some 0, oc1, db)
          else if applied
          then (if ended then (some (length changes), oc2, db') else (none, oc2, db'))
          else (none, oc1, db'))
      else (none, oc1, db)
