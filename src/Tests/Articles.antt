-- ===== src/Tests/Articles.antt =====
-- A user reads and stars articles, and the changes are flushed.
use rss_lance.Base.{
  arith, ℕ, String, List, [], ◌∷◌, Bool, true, false, not, ◌&&◌, none, some, ◌≡◌, refl, map, zero,
  suc,
}
use rss_lance.Base.Assoc.{Assoc, lookup, insert, IsMap}
use rss_lance.Types.{PendingChange, Override}
use rss_lance.WriteCache.{new_write_cache, clear}
use rss_lance.Offline.{OfflineCache, new_offline_cache}
use rss_lance.Offline.Pending.{get_pending_changes, add_pending_change, update_cached_article}
use rss_lance.Writer.{flush_overrides}
use rss_lance.Writer.Groups.{flush_one, flush_overrides_lem}
use rss_lance.Replay.{replay, replay_apply, replay_end}
use rss_lance.Replay.Collapse.{apply_changes, mark_after_unread}
use rss_lance.Replay.Effect.{flags, replay_apply-flags}
use rss_lance.Replay.Race.{Outcome, HasFlags, interrupted, interrupted_loses, replay-pending}
use rss_lance.Store.{Store}
use rss_lance.Store.Articles.{view, set_article_read}
use rss_lance.Store.Linked.{Linked-nil}
use rss_lance.Store.Visible.{IsLinked, shown, set_article_read-IsLinked}
use rss_lance.Tests.Data.{list_lance, always, two_articles, fresh_store}

fresh-IsLinked : IsLinked fresh_store
unfolding clear
fresh-IsLinked = Linked-nil new_write_cache two_articles.article_rows

abbrev read_a : Store list_lance
read_a = set_article_read always 5 "a" true fresh_store

set_article_read-IsLinked_example : IsLinked read_a
set_article_read-IsLinked_example =
    set_article_read-IsLinked always 5 "a" true fresh_store new_offline_cache refl refl
      fresh-IsLinked

abbrev change : ℕ → String → String → PendingChange
change n id action = record { id = n; article_id = id; action = action; value = ""; timestamp = 5 }

-- A cache that holds the changes of a session.
abbrev with_changes : List PendingChange → OfflineCache
with_changes cs = record new_offline_cache { pending_changes = cs }

abbrev session : List PendingChange
session = change 1 "a" "unread" ∷ change 2 "f" "mark_all_read" ∷ change 3 "b" "star" ∷ []

-- The mark-all-read of the feed does not reach the article.
session_run : (replay_apply list_lance session 9 two_articles).0 ≡ true
unfolding replay_apply lookup
session_run = refl

replay_apply-flags_example :
    map flags (replay_apply list_lance session 9 two_articles).1.article_rows
    ≡ map
        (λ a. (
          a.article_id,
          (apply_changes session a).is_read && not (mark_after_unread session a),
          (apply_changes session a).is_starred,
        ))
        two_articles.article_rows
replay_apply-flags_example = replay_apply-flags list_lance session 9 two_articles session_run

-- The cache behind `read_a`.
abbrev cache_a : OfflineCache
cache_a =
    (update_cached_article always "a" (some true) none 5
      (add_pending_change always "a" "read" "" 5 new_offline_cache).1).1

-- What the user sees after the click, and after the flush.
shown_a : shown read_a ≡ ("a", true, false) ∷ ("b", true, false) ∷ []
unfolding set_article_read view lookup insert
shown_a = refl

-- The statements of the cache fail from the second on, so the changes cannot be cleared.
abbrev first_only : ℕ → Bool
first_only zero = true
first_only (suc n) = false

replay-pending_example :
    let (result, oc', db') = replay list_lance first_only 9 (with_changes session) two_articles in
    Outcome result ((result ≡ some 3) × (oc'.pending_changes ≡ [])) (oc'.pending_changes ≡ session)
replay-pending_example = replay-pending list_lance first_only 9 (with_changes session) two_articles

interrupted_run :
    (interrupted list_lance always 9 "b" "unread" "" (with_changes session) two_articles).0 ≡ true
unfolding interrupted get_pending_changes replay_apply replay_end lookup
interrupted_run = refl

interrupted_loses_example :
    let (done, oc', db') =
      interrupted list_lance always 9 "b" "unread" "" (with_changes session) two_articles in
    (oc'.pending_changes ≡ []) × HasFlags list_lance session two_articles db'
interrupted_loses_example =
    interrupted_loses list_lance always 9 "b" "unread" "" (with_changes session) two_articles
      (omega arith) interrupted_run

abbrev overrides : Assoc Override
overrides =
    ("a", record { is_read = some true; is_starred = none })
    ∷ ("b", record { is_read = none; is_starred = none })
    ∷ ("c", record { is_read = some true; is_starred = none })
    ∷ []

overrides-IsMap : IsMap overrides
unfolding lookup
overrides-IsMap = (refl, (refl, (refl, tt)))

overrides_run : (flush_overrides list_lance overrides 9 two_articles).0 ≡ true
unfolding flush_overrides
overrides_run = refl

flush_overrides_lem_example :
    (flush_overrides list_lance overrides 9 two_articles).1.article_rows
    ≡ map (λ a. flush_one (lookup a.article_id overrides) 9 a) two_articles.article_rows
flush_overrides_lem_example =
    flush_overrides_lem list_lance overrides 9 two_articles overrides-IsMap overrides_run
