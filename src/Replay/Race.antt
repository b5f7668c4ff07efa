-- ===== src/Replay/Race.antt =====
-- What becomes of the pending changes themselves: after a replay that succeeds, after one that
-- fails, and where a change is made while a replay is under way.
use rss_lance.Base.{
  ℕ, ◌<◌, ◌⊎◌, String, List, [], Bool, true, false, false≢true, sym, not, refl, if◌then◌else◌, ◌==◌,
  ◌&&◌, Option, none, some, ◌≡◌, arith, subst, length, map,
}
use rss_lance.Types.{PendingChange}
use rss_lance.Offline.{OfflineCache}
use rss_lance.Offline.Pending.{add_pending_change, get_pending_changes}
use rss_lance.Writer.{Lance}
use rss_lance.Replay.{replay_apply, replay_end, replay}
use rss_lance.Replay.Collapse.{apply_changes, mark_after_unread}
use rss_lance.Replay.Effect.{flags, replay_apply-flags}

-- One statement for a success, and one for an error.
abbrev pub Outcome : Option ℕ → Type 0 → Type 0 → Type 0
Outcome none A B = B
Outcome (some n) A B = A

-- A replay that returns an error keeps every pending change for the next one. One that succeeds
-- reports how many changes there were, and leaves none.
pub replay-pending :
    (lance : Lance) (duck : ℕ → Bool) (now : ℕ) (oc : OfflineCache) (db : lance.Db)
    → let (result, oc', db') = replay lance duck now oc db in
      Outcome result
        ((result ≡ some (length oc.pending_changes)) × (oc'.pending_changes ≡ []))
        (oc'.pending_changes ≡ oc.pending_changes)
unfolding replay get_pending_changes replay_end
replay-pending lance duck now oc db = ground arith

-- Lance at `db'` has the flags that a replay of the changes `cs` makes of those at `db`.
abbrev pub HasFlags : (lance : Lance) → List PendingChange → lance.Db → lance.Db → Type 0
HasFlags lance cs db db' =
    map flags (lance.articles db')
    ≡ map
        (λ a. (
          a.article_id,
          (apply_changes cs a).is_read && not (mark_after_unread cs a),
          (apply_changes cs a).is_starred,
        ))
        (lance.articles db)

got_changes :
    (duck : ℕ → Bool) (oc : OfflineCache)
    → (get_pending_changes duck oc).0 ≡ true
    → (get_pending_changes duck oc).1 ≡ oc.pending_changes
unfolding get_pending_changes
got_changes duck oc h = ground arith

pending-replay_end :
    (duck : ℕ → Bool) (oc : OfflineCache)
    → (replay_end duck oc).0 ≡ true
    → (replay_end duck oc).1.pending_changes ≡ []
unfolding replay_end
pending-replay_end duck oc h = ground arith

-- The ways out of `replay`, by whether the changes were read, whether there are none, whether the
-- writes were made, and whether the end was reached.
unfoldable pub way_out :
    {D : Type 0}
    → Bool
    → Bool
    → Bool
    → Bool
    → OfflineCache
    → OfflineCache
    → D
    → D
    → Bool × OfflineCache × D
way_out got empty applied ended oc oc' db db' =
    if got
    then (if empty then (true, oc, db) else if applied then (ended, oc', db') else (false, oc, db'))
    else (false, oc, db)

-- A replay during which the user makes a change, behind the read of the pending changes: the parts of
-- `replay`, with its early returns, and the change between its first two statements.
unfoldable pub interrupted :
    (lance : Lance) (duck : ℕ → Bool) (now : ℕ) (id action value : String)
    → OfflineCache
    → lance.Db
    → Bool × OfflineCache × lance.Db
unfolding replay_apply replay_end get_pending_changes add_pending_change way_out
interrupted lance duck now id action value oc db =
    let (got, changes, oc1) = get_pending_changes duck oc in
    let (added, oc2) = add_pending_change duck id action value now oc1 in
    let (applied, db') = replay_apply lance changes now db in
    let (ended, oc3) = replay_end duck oc2 in
    way_out got (length changes == 0) applied ended oc2 oc3 db db'

-- Where such a replay succeeds and was not empty, each of its parts has succeeded.
all_done :
    {D : Type 0} (P : OfflineCache → D → Type 0) (got empty applied ended : Bool)
    (oc oc' : OfflineCache) (db db' : D)
    → (way_out got empty applied ended oc oc' db db').0 ≡ true
    → (got ≡ true → empty ≡ false)
    → (got ≡ true → applied ≡ true → ended ≡ true → P oc' db')
    → P
        (way_out got empty applied ended oc oc' db db').1
        (way_out got empty applied ended oc oc' db db').2
unfolding way_out
all_done P true false true true oc oc' db db' h e p = p refl refl refl
all_done P true false true false oc oc' db db' h e p = absurd (false≢true h)
all_done P true false false ended oc oc' db db' h e p = absurd (false≢true h)
all_done P true true applied ended oc oc' db db' h e p = absurd (false≢true (sym (e refl)))
all_done P false empty applied ended oc oc' db db' h e p = absurd (false≢true h)

-- A change that is made while a replay of one or more pending changes is under way is lost where that
-- replay succeeds: it is no longer pending, and Lance has only what the earlier changes make.
pub interrupted_loses :
    (lance : Lance) (duck : ℕ → Bool) (now : ℕ) (id action value : String) (oc : OfflineCache)
    (db : lance.Db)
    → 0 < length oc.pending_changes
    → (interrupted lance duck now id action value oc db).0 ≡ true
    → let (done, oc', db') = interrupted lance duck now id action value oc db in
      (oc'.pending_changes ≡ []) × HasFlags lance oc.pending_changes db db'
unfolding interrupted
interrupted_loses lance duck now id action value oc db some_pending ok =
    let read = get_pending_changes duck oc in
    let oc2 = (add_pending_change duck id action value now read.2).1 in
    let applied = replay_apply lance read.1 now db in
    let flagged : read.0 ≡ true
        → applied.0 ≡ true
        → HasFlags lance oc.pending_changes db applied.1 =
      λ got done.
        subst (λ cs. HasFlags lance cs db applied.1) (got_changes duck oc got)
          (replay_apply-flags lance read.1 now db done) in
    let not_empty : read.0 ≡ true → (length read.1 == 0) ≡ false =
      λ got. rw (got_changes duck oc got) (ground (arith, some_pending)) in
    let ended = replay_end duck oc2 in
    all_done (λ oc' db'. (oc'.pending_changes ≡ []) × HasFlags lance oc.pending_changes db db')
      read.0 (length read.1 == 0) applied.0 ended.0 oc2 ended.1 db applied.1 ok not_empty
      (λ got done cleared. (pending-replay_end duck oc2 cleared, flagged got done))

-- What a successful replay has done to Lance: all its writes, or nothing where nothing was pending.
pub replay-db :
    (lance : Lance) (duck : ℕ → Bool) (now : ℕ) (oc : OfflineCache) (db : lance.Db) (n : ℕ)
    → (replay lance duck now oc db).0 ≡ some n
    → ((n ≡ 0) × ((replay lance duck now oc db).2 ≡ db))
      ⊎ ((0 < n)
          × ((replay_apply lance oc.pending_changes now db).0 ≡ true)
          × ((replay lance duck now oc db).2 ≡ (replay_apply lance oc.pending_changes now db).1))
unfolding replay get_pending_changes replay_end
replay-db lance duck now oc db n e = ground arith
