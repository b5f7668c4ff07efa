-- ===== src/Store/Linked.antt =====
-- The overlay and the pending changes tell the same story: what the user sees does not change when
-- the pending changes are flushed to Lance and the overlay is cleared.
use rss_lance.Base.{
  List, [], ◌∷◌, ◌++◌, Bool, ◌||◌, some, ◌≡◌, refl, ap, ◌∙◌, arith, eq_iff, if◌then◌else◌, All,
}
use rss_lance.Base.Assoc.{lookup, lookup-insert}
use rss_lance.Types.{Article, PendingChange}
use rss_lance.WriteCache.{
  WriteCache, coalesce, override_or_new, set_read, set_starred, clear, overlaid,
}
use rss_lance.Offline.{contains}
use rss_lance.Replay.{
  Action, read, unread, star, unstar, action_of, read_as, star_as, nothing_yet, collapse_loop,
  collapse_one, collapse_as,
}
use rss_lance.Replay.Collapse.{held, marked, held-update, collapse_loop-append}
use rss_lance.Replay.Effect.{flags}

-- For one article, the overlay shows what the pending changes will have made of it in Lance.
pub record LinkedAt (c : WriteCache) (cs : List PendingChange) (a : Article) : Type 0 where
  pub read_as_shown :
      coalesce (override_or_new (lookup a.article_id c.pending)).is_read a.is_read
      ≡ coalesce
          (held (collapse_loop nothing_yet cs) a).is_read
          (marked (collapse_loop nothing_yet cs) a || a.is_read)
  pub starred_as_shown :
      coalesce (override_or_new (lookup a.article_id c.pending)).is_starred a.is_starred
      ≡ coalesce (held (collapse_loop nothing_yet cs) a).is_starred a.is_starred

abbrev pub Linked : WriteCache → List PendingChange → List Article → Type 0
Linked c cs rows = All (LinkedAt c cs) rows

-- Nothing pending, nothing overlaid.
pub Linked-nil : (c : WriteCache) (rows : List Article) → Linked (clear c) [] rows
unfolding clear lookup collapse_loop contains
Linked-nil c [] = tt
Linked-nil c (a ∷ rows) =
    (record { read_as_shown = refl; starred_as_shown = refl }, Linked-nil c rows)

pub flags-overlaid :
    (c : WriteCache) (a : Article)
    → flags (overlaid c a) ≡ (
      a.article_id,
      coalesce (override_or_new (lookup a.article_id c.pending)).is_read a.is_read,
      coalesce (override_or_new (lookup a.article_id c.pending)).is_starred a.is_starred,
    )
unfolding overlaid
flags-overlaid c a = ground arith

-- One more change in the collapse.
module _ (cs : List PendingChange) (change : PendingChange) (act : Action)
    (named : action_of change.action ≡ act) where
  collapse_more :
      collapse_loop nothing_yet (cs ++ change ∷ [])
      ≡ collapse_as act change (collapse_loop nothing_yet cs)
  unfolding collapse_one
  collapse_more =
      collapse_loop-append cs change nothing_yet
      ∙ ap (λ x. collapse_as x change (collapse_loop nothing_yet cs)) named

  module _ (c : WriteCache) (a : Article) (l : LinkedAt c cs a) where
    pub LinkedAt-set_read :
        (b : Bool)
        → act ≡ (if b then read else unread)
        → LinkedAt (set_read change.article_id b c) (cs ++ change ∷ []) a
    unfolding set_read collapse_as
    LinkedAt-set_read b e =
        let s = collapse_loop nothing_yet cs in
        let facts = held-update change.article_id a.article_id (read_as b) s.article_states in
        let shown =
          lookup-insert change.article_id a.article_id
            (record (override_or_new (lookup change.article_id c.pending)) { is_read = some b })
            c.pending in
        record {
          read_as_shown =
              rw collapse_more
                (ground (arith, e, facts, shown, l, eq_iff change.article_id a.article_id));
          starred_as_shown =
              rw collapse_more
                (ground (arith, e, facts, shown, l, eq_iff change.article_id a.article_id));
        }

    pub LinkedAt-set_starred :
        (b : Bool)
        → act ≡ (if b then star else unstar)
        → LinkedAt (set_starred change.article_id b c) (cs ++ change ∷ []) a
    unfolding set_starred collapse_as
    LinkedAt-set_starred b e =
        let s = collapse_loop nothing_yet cs in
        let facts = held-update change.article_id a.article_id (star_as b) s.article_states in
        let shown =
          lookup-insert change.article_id a.article_id
            (record (override_or_new (lookup change.article_id c.pending)) { is_starred = some b })
            c.pending in
        record {
          read_as_shown =
              rw collapse_more
                (ground (arith, e, facts, shown, l, eq_iff change.article_id a.article_id));
          starred_as_shown =
              rw collapse_more
                (ground (arith, e, facts, shown, l, eq_iff change.article_id a.article_id));
        }
