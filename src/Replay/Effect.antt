-- ===== src/Replay/Effect.antt =====
-- What a successful replay does to the articles in Lance.
use rss_lance.Base.{
  ℕ, String, List, [], ◌∷◌, Bool, true, false≢true, not, ◌&&◌, ◌||◌, Option, none, some, ◌≡◌, refl,
  sym, ap, ◌∙◌, arith, eq_iff, ◌=str◌, map, Bool-cases, inl, inr,
}
use rss_lance.Base.Assoc.{Assoc, lookup, IsMap}
use rss_lance.Types.{Article, Override, PendingChange}
use rss_lance.WriteCache.{override_or_new, coalesce}
use rss_lance.Offline.{contains}
use rss_lance.Writer.{
  Lance, apply_update, where_then, mark_all_read, payload, put_groups, put_settings_batch,
}
use rss_lance.Writer.Groups.{flush_one, flush_overrides_lem, map-compose, map-ext, map_self}
use rss_lance.Replay.{
  nothing_yet, collapse_loop, replay_marks, replay_states, replay_settings, replay_apply,
}
use rss_lance.Replay.Collapse.{
  apply_changes, mark_after_unread, held, marked, collapse-flags, collapse_loop-IsMap,
}

abbrev marking : String → ℕ → Article → Article
marking feed now =
    where_then (λ a. (a.feed_id =str feed) && not a.is_read)
      (apply_update (record { set_read = some true; set_starred = none; at = now }))

abbrev mark_each : List String → ℕ → Article → Article
mark_each [] now a = a
mark_each (feed ∷ feeds) now a = mark_each feeds now (marking feed now a)

record Marked (feeds : List String) (a b : Article) : Type 0 where
  same_id : b.article_id ≡ a.article_id
  starred : b.is_starred ≡ a.is_starred
  read_state : b.is_read ≡ contains a.feed_id feeds || a.is_read

mark_each-Marked :
    (feeds : List String) (now : ℕ) (a : Article) → Marked feeds a (mark_each feeds now a)
unfolding contains
mark_each-Marked [] now a = record { same_id = refl; starred = refl; read_state = refl }
mark_each-Marked (feed ∷ feeds) now a =
    let m = mark_each-Marked feeds now (marking feed now a) in
    ground (arith, m, eq_iff feed a.feed_id, eq_iff a.feed_id feed)

module _ (lance : Lance) where
  open lance use {Db, articles, update_settings, articles-update_articles, articles-update_settings}

  replay_marks_lem :
      (feeds : List String) (now : ℕ) (db : Db)
      → (replay_marks lance feeds now db).0 ≡ true
      → articles (replay_marks lance feeds now db).1 ≡ map (mark_each feeds now) (articles db)
  unfolding replay_marks
  replay_marks_lem [] now db ok = sym (map_self (λ a. a) (articles db) (λ a. refl))
  replay_marks_lem (feed ∷ feeds) now db ok =
      elim (Bool-cases (mark_all_read lance feed now db).0) [
        | inr e ↦ absurd (false≢true (rw e at ok))
        | inl e ↦
            let db' : Db = (mark_all_read lance feed now db).1 in
            let done : articles db' ≡ map (marking feed now) (articles db) =
              unfold mark_all_read in articles-update_articles _ _ db ∙ rw e in
            rw e (
              replay_marks_lem feeds now db' (rw e at ok)
              ∙ ap (map (mark_each feeds now)) done
              ∙ map-compose _ _ (articles db))
      ]

  replay_states_lem :
      (m : Assoc Override) (now : ℕ) (db : Db)
      → IsMap m
      → (replay_states lance m now db).0 ≡ true
      → articles (replay_states lance m now db).1
        ≡ map (λ a. flush_one (lookup a.article_id m) now a) (articles db)
  unfolding replay_states
  replay_states_lem [] now db d ok =
      unfold lookup in sym (map_self (λ a. a) (articles db) (λ a. refl))
  replay_states_lem (s ∷ m) now db d ok = flush_overrides_lem lance (s ∷ m) now db d ok

  articles-put_groups :
      (gs : List (String × List String)) (db : Db)
      → articles (put_groups lance gs db).1 ≡ articles db
  unfolding put_groups
  articles-put_groups [] db = refl
  articles-put_groups ((v, keys) ∷ gs) db =
      elim (Bool-cases (update_settings (λ s. contains s.key keys) v db).0) [
        | inl e ↦ rw e (articles-put_groups gs _ ∙ articles-update_settings _ v db)
        | inr e ↦ rw e (articles-update_settings _ v db)
      ]

  articles-replay_settings :
      (cs : List PendingChange) (db : Db) → articles (replay_settings lance cs db).1 ≡ articles db
  unfolding replay_settings put_settings_batch
  articles-replay_settings [] db = refl
  articles-replay_settings (c ∷ cs) db = articles-put_groups _ db

-- The part of an article that the user changes.
abbrev pub flags : Article → String × Bool × Bool
flags a = (a.article_id, a.is_read, a.is_starred)

flush_one-flags :
    (o : Option Override) (now : ℕ) (a : Article)
    → flags (flush_one o now a) ≡ (
      a.article_id,
      coalesce (override_or_new o).is_read a.is_read,
      coalesce (override_or_new o).is_starred a.is_starred,
    )
unfolding payload
flush_one-flags none now a = refl
flush_one-flags (some ov) now a = ground arith

-- An article after the marks and the overrides of the changes.
abbrev replayed : List PendingChange → ℕ → Article → Article
replayed cs now a =
    let s = collapse_loop nothing_yet cs in
    let b = mark_each s.mark_all_read_feeds now a in
    flush_one (lookup b.article_id s.article_states) now b

replayed-flags :
    (cs : List PendingChange) (now : ℕ) (a : Article)
    → flags (replayed cs now a) ≡ (
      a.article_id,
      (apply_changes cs a).is_read && not (mark_after_unread cs a),
      (apply_changes cs a).is_starred,
    )
replayed-flags cs now a =
    let s = collapse_loop nothing_yet cs in
    let b = mark_each s.mark_all_read_feeds now a in
    let m = mark_each-Marked s.mark_all_read_feeds now a in
    ground
      (arith, flush_one-flags (lookup b.article_id s.article_states) now b, m, collapse-flags cs a)

-- The replay carries out each of its three writes.
replay_apply-articles :
    (lance : Lance) (cs : List PendingChange) (now : ℕ) (db : lance.Db)
    → (replay_apply lance cs now db).0 ≡ true
    → lance.articles (replay_apply lance cs now db).1 ≡ map (replayed cs now) (lance.articles db)
unfolding replay_apply
replay_apply-articles lance cs now db ok =
    let s = collapse_loop nothing_yet cs in
    let one = replay_marks lance s.mark_all_read_feeds now db in
    let two = replay_states lance s.article_states now one.1 in
    elim (Bool-cases one.0) [
      | inr e ↦ absurd (false≢true (rw e at ok))
      | inl e ↦ elim (Bool-cases two.0) [
        | inr f ↦ absurd (false≢true (rw (e, f) at ok))
        | inl f ↦
            rw (e, f)
              (articles-replay_settings lance s.setting_changes two.1
                ∙ replay_states_lem lance s.article_states now one.1
                    (collapse_loop-IsMap cs nothing_yet tt) f
                ∙ ap (map (λ a. flush_one (lookup a.article_id s.article_states) now a))
                    (replay_marks_lem lance s.mark_all_read_feeds now db e)
                ∙ map-compose _ _ (lance.articles db))
      ]
    ]

-- Where the writes of a replay succeed, every article in Lance has the star and the read state that
-- the pending changes make of it one by one, in their order, with one exception: an article that was
-- marked unread and whose feed was marked read after that is left unread. No article
-- comes, goes or moves.
pub replay_apply-flags :
    (lance : Lance) (cs : List PendingChange) (now : ℕ) (db : lance.Db)
    → (replay_apply lance cs now db).0 ≡ true
    → map flags (lance.articles (replay_apply lance cs now db).1)
      ≡ map
          (λ a. (
            a.article_id,
            (apply_changes cs a).is_read && not (mark_after_unread cs a),
            (apply_changes cs a).is_starred,
          ))
          (lance.articles db)
replay_apply-flags lance cs now db ok =
    ap (map flags) (replay_apply-articles lance cs now db ok)
    ∙ map-compose _ _ (lance.articles db)
    ∙ map-ext _ _ (lance.articles db) (λ a. replayed-flags cs now a)

-- The same in terms of what the collapse holds for each article.
pub replay_apply-held :
    (lance : Lance) (cs : List PendingChange) (now : ℕ) (db : lance.Db)
    → (replay_apply lance cs now db).0 ≡ true
    → let s = collapse_loop nothing_yet cs in
      map flags (lance.articles (replay_apply lance cs now db).1)
      ≡ map
          (λ a. (
            a.article_id,
            coalesce (held s a).is_read (marked s a || a.is_read),
            coalesce (held s a).is_starred a.is_starred,
          ))
          (lance.articles db)
replay_apply-held lance cs now db ok =
    replay_apply-flags lance cs now db ok
    ∙ map-ext _ _ (lance.articles db) (λ a. let (r, t) = collapse-flags cs a in cc (r, t))
