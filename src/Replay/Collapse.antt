-- ===== src/Replay/Collapse.antt =====
-- The collapse of the pending changes against carrying them out one by one.
use rss_lance.Base.{
  String, List, [], ◌∷◌, ◌++◌, Bool, true, false, false≢true, not, ◌&&◌, ◌||◌, Option, none, some,
  ◌≡◌, refl, sym, arith, eq_iff, ◌=str◌, if◌then◌else◌,
}
use rss_lance.Base.Assoc.{Assoc, lookup, lookup-insert, IsMap, insert-IsMap}
use rss_lance.Types.{Article, Override, PendingChange}
use rss_lance.WriteCache.{override_or_new, coalesce}
use rss_lance.Offline.{contains}
use rss_lance.Writer.Groups.{contains-append}
use rss_lance.Replay.{
  Action, read, unread, star, unstar, mark_all, setting, other, action_of, Collapsed, nothing_yet,
  read_as, star_as, update_state, collapse_as, collapse_one, collapse_loop,
}

-- What a change means for one article.
pub apply_as : Action → PendingChange → Article → Article
apply_as read c a = if c.article_id =str a.article_id then record a { is_read = true } else a
apply_as unread c a = if c.article_id =str a.article_id then record a { is_read = false } else a
apply_as star c a = if c.article_id =str a.article_id then record a { is_starred = true } else a
apply_as unstar c a = if c.article_id =str a.article_id then record a { is_starred = false } else a
apply_as mark_all c a = if c.article_id =str a.feed_id then record a { is_read = true } else a
apply_as setting c a = a
apply_as other c a = a

-- The changes one by one, in order.
pub apply_changes : List PendingChange → Article → Article
apply_changes [] a = a
apply_changes (c ∷ cs) a = apply_changes cs (apply_as (action_of c.action) c a)

-- `was_unread` says that of the changes so far an "unread" of the article was the last to name it
-- by "read" or "unread", and `late` that its feed was marked read since.
pub record Marks : Type 0 where
  pub was_unread : Bool
  pub late : Bool

pub note_as : Action → PendingChange → Article → Marks → Marks
note_as read c a m =
    if c.article_id =str a.article_id then record { was_unread = false; late = false } else m
note_as unread c a m =
    if c.article_id =str a.article_id then record { was_unread = true; late = false } else m
note_as mark_all c a m = if c.article_id =str a.feed_id then record m { late = m.was_unread } else m
note_as _ c a m = m

pub note_all : List PendingChange → Article → Marks → Marks
note_all [] a m = m
note_all (c ∷ cs) a m = note_all cs a (note_as (action_of c.action) c a m)

-- Whether the article's feed is marked read behind an "unread" of the article that no other "read"
-- or "unread" of it follows.
abbrev pub mark_after_unread : List PendingChange → Article → Bool
mark_after_unread cs a = (note_all cs a (record { was_unread = false; late = false })).late

-- The override and the mark that the collapse holds for an article.
abbrev pub held : Collapsed → Article → Override
held s a = override_or_new (lookup a.article_id s.article_states)

abbrev pub marked : Collapsed → Article → Bool
marked s a = contains a.feed_id s.mark_all_read_feeds

abbrev is_false : Option Bool → Bool
is_false none = false
is_false (some b) = not b

-- `b` is what the changes so far have made of `a`.
record Tracks (s : Collapsed) (a b : Article) (m : Marks) : Type 0 where
  same_id : b.article_id ≡ a.article_id
  same_feed : b.feed_id ≡ a.feed_id
  starred : b.is_starred ≡ coalesce (held s a).is_starred a.is_starred
  last_unread : m.was_unread ≡ is_false (held s a).is_read
  only_late : m.late ≡ true → (m.was_unread ≡ true) × (b.is_read ≡ true)
  read_state : coalesce (held s a).is_read (marked s a || a.is_read) ≡ b.is_read && not m.late

pub held-update :
    (id j : String) (change : Override → Override) (m : Assoc Override)
    → override_or_new (lookup j (update_state id change m))
      ≡ (if id =str j then change (override_or_new (lookup id m)) else override_or_new (lookup j m))
unfolding update_state
held-update id j change m =
    ground (arith, lookup-insert id j (change (override_or_new (lookup id m))) m)

collapse_as-Tracks :
    (act : Action) (c : PendingChange) (s : Collapsed) (a b : Article) (m : Marks)
    → Tracks s a b m
    → Tracks (collapse_as act c s) a (apply_as act c b) (note_as act c a m)
unfolding collapse_as apply_as note_as
collapse_as-Tracks read c s a b m t = ground (
  arith,
  held-update c.article_id a.article_id (read_as true) s.article_states,
  eq_iff c.article_id a.article_id,
)
collapse_as-Tracks unread c s a b m t = ground (
  arith,
  held-update c.article_id a.article_id (read_as false) s.article_states,
  eq_iff c.article_id a.article_id,
)
collapse_as-Tracks star c s a b m t = ground (
  arith,
  held-update c.article_id a.article_id (star_as true) s.article_states,
  eq_iff c.article_id a.article_id,
)
collapse_as-Tracks unstar c s a b m t = ground (
  arith,
  held-update c.article_id a.article_id (star_as false) s.article_states,
  eq_iff c.article_id a.article_id,
)
collapse_as-Tracks mark_all c s a b m t =
    ground (arith, contains-append a.feed_id s.mark_all_read_feeds c.article_id)
collapse_as-Tracks setting c s a b m t = ground arith
collapse_as-Tracks other c s a b m t = t

collapse_loop-Tracks :
    (cs : List PendingChange) (s : Collapsed) (a b : Article) (m : Marks)
    → Tracks s a b m
    → Tracks (collapse_loop s cs) a (apply_changes cs b) (note_all cs a m)
unfolding collapse_loop apply_changes note_all
collapse_loop-Tracks [] s a b m t = t
collapse_loop-Tracks (c ∷ cs) s a b m t =
    collapse_loop-Tracks cs (collapse_one s c) a (apply_as (action_of c.action) c b)
      (note_as (action_of c.action) c a m)
      (unfold collapse_one in collapse_as-Tracks (action_of c.action) c s a b m t)

-- The flags of an article under what the collapse holds are those that the changes make one by one,
-- but for a mark-all-read behind an "unread", which is lost.
pub collapse-flags :
    (cs : List PendingChange) (a : Article)
    → let s = collapse_loop nothing_yet cs in
      (coalesce (held s a).is_read (marked s a || a.is_read)
        ≡ (apply_changes cs a).is_read && not (mark_after_unread cs a))
      × (coalesce (held s a).is_starred a.is_starred ≡ (apply_changes cs a).is_starred)
collapse-flags cs a = (t.read_state, sym t.starred)
  where
    t :
        Tracks
          (collapse_loop nothing_yet cs)
          a
          (apply_changes cs a)
          (note_all cs a (record { was_unread = false; late = false }))
    t =
        collapse_loop-Tracks cs nothing_yet a a (record { was_unread = false; late = false })
          (unfold lookup contains in
            record {
              same_id = refl;
              same_feed = refl;
              starred = refl;
              last_unread = refl;
              only_late = λ e. absurd (false≢true e);
              read_state = ground arith;
            })

update_state-IsMap :
    (id : String) (change : Override → Override) (m : Assoc Override)
    → IsMap m
    → IsMap (update_state id change m)
unfolding update_state
update_state-IsMap id change m h = insert-IsMap id (change (override_or_new (lookup id m))) m h

collapse_as-IsMap :
    (act : Action) (c : PendingChange) (s : Collapsed)
    → IsMap s.article_states
    → IsMap (collapse_as act c s).article_states
unfolding collapse_as
collapse_as-IsMap read c s h = update_state-IsMap c.article_id (read_as true) s.article_states h
collapse_as-IsMap unread c s h = update_state-IsMap c.article_id (read_as false) s.article_states h
collapse_as-IsMap star c s h = update_state-IsMap c.article_id (star_as true) s.article_states h
collapse_as-IsMap unstar c s h = update_state-IsMap c.article_id (star_as false) s.article_states h
collapse_as-IsMap mark_all c s h = h
collapse_as-IsMap setting c s h = h
collapse_as-IsMap other c s h = h

pub collapse_loop-IsMap :
    (cs : List PendingChange) (s : Collapsed)
    → IsMap s.article_states
    → IsMap (collapse_loop s cs).article_states
unfolding collapse_loop
collapse_loop-IsMap [] s h = h
collapse_loop-IsMap (c ∷ cs) s h =
    collapse_loop-IsMap cs (collapse_one s c)
      (unfold collapse_one in collapse_as-IsMap (action_of c.action) c s h)

pub collapse_loop-append :
    (cs : List PendingChange) (c : PendingChange) (s : Collapsed)
    → collapse_loop s (cs ++ c ∷ []) ≡ collapse_one (collapse_loop s cs) c
unfolding collapse_loop
collapse_loop-append [] c s = refl
collapse_loop-append (d ∷ cs) c s = collapse_loop-append cs c (collapse_one s d)
