-- ===== src/Store/MarkedRead/NoneLeft.antt =====
-- The unread articles of a feed right after `MarkAllRead`: none that the user has not marked unread.
use rss_lance.Base.Assoc.{lookup}
use rss_lance.Base.{
  zero, suc, ℕ, String, List, [], ◌∷◌, Bool, true, false, not, ◌&&◌, Option, none, some, ◌≡◌, refl,
  ap, ◌∙◌, arith, ◌=str◌, if◌then◌else◌, keep_if, map, take, drop, All, All-map,
}
use rss_lance.Types.{Article, Override}
use rss_lance.WriteCache.{WriteCache, overlay, overlaid}
use rss_lance.Offline.{OfflineCache, sort_by, run_sql}
use rss_lance.Offline.Pending.{add_pending_change, mark_all_read_cached}
use rss_lance.Offline.Reads.{article_filter, by_published, without_content}
use rss_lance.Writer.{Lance}
use rss_lance.Store.{gives_rows, Store, ok, is_offline}
use rss_lance.Store.Articles
use rss_lance.Store.Articles.{view, read_through, after_query, buffer_change}
use rss_lance.Store.MarkedRead.{Distinct, marked, view-mark_all_read}

buffered_online :
    (duck : ℕ → Bool) (now : ℕ) (feed : String) (oc : OfflineCache)
    → (mark_all_read_cached duck feed now
        (add_pending_change duck feed "mark_all_read" "" now oc).1).1.is_offline
      ≡ oc.is_offline
unfolding mark_all_read_cached add_pending_change run_sql
buffered_online duck now feed oc = ground arith

overlay-feed_id : (o : Option Override) (a : Article) → (overlay o a).feed_id ≡ a.feed_id
unfolding overlay
overlay-feed_id none a = refl
overlay-feed_id (some ov) a = refl

kept_none :
    (p : Article → Bool) (f : Article → Article) (rows : List Article)
    → All (λ a. p (f a) ≡ false) rows
    → keep_if p (map f rows) ≡ []
kept_none p f [] h = refl
kept_none p f (a ∷ rows) h = rw (h.0, kept_none p f rows h.1) refl

empty_page :
    (less : Article → Article → Bool) (limit offset : ℕ)
    → map without_content (take limit (drop offset (sort_by less []))) ≡ []
unfolding sort_by
empty_page less zero zero = refl
empty_page less zero (suc n) = refl
empty_page less (suc k) zero = refl
empty_page less (suc k) (suc n) = refl

-- An article as the store shows it right after its feed is marked read.
abbrev shown_after : WriteCache → String → Article → Article
shown_after c feed a =
    if marked feed a then record (overlaid c a) { is_read = true } else overlaid c a

filter_none :
    (of_feed unread shown_read : Bool)
    → (unread ≡ false → shown_read ≡ true)
    → (if of_feed && unread then false else of_feed && not shown_read) ≡ false
filter_none true true r h = refl
filter_none true false r h = rw (h refl) refl
filter_none false u r h = refl

filter-if :
    (feed : String) (b : Bool) (a : Article)
    → (feed =str "") ≡ false
    → article_filter feed true (if b then record a { is_read = true } else a)
      ≡ (if b then false else (a.feed_id =str feed) && not a.is_read)
unfolding article_filter
filter-if feed true a h = ground (arith, h)
filter-if feed false a h = ground (arith, h)

not_listed :
    (c : WriteCache) (feed : String) (a : Article)
    → (feed =str "") ≡ false
    → (a.is_read ≡ true → (overlaid c a).is_read ≡ true)
    → article_filter feed true (shown_after c feed a) ≡ false
unfolding overlaid
not_listed c feed a h read =
    let shown = overlay (lookup a.article_id c.pending) a in
    filter-if feed (marked feed a) shown h
    ∙ ap (λ f. if marked feed a then false else (f =str feed) && not shown.is_read)
        (overlay-feed_id (lookup a.article_id c.pending) a)
    ∙ filter_none (a.feed_id =str feed) (not a.is_read) shown.is_read
        (λ e. read (ground (arith, e)))

module _ {lance : Lance} (duck : ℕ → Bool) (now : ℕ) (feed : String) (s : Store lance) where
  still_online :
      (o : Option OfflineCache)
      → is_offline (record s { off_cache = o }) ≡ false
      → is_offline (record (Articles.mark_all_read duck true now feed s) {
        off_cache =
            buffer_change duck feed "mark_all_read" now
              (λ oc. (mark_all_read_cached duck feed now oc).1)
              o;
      })
        ≡ false
  unfolding is_offline buffer_change
  still_online none h = refl
  still_online (some oc) h = buffered_online duck now feed oc ∙ h

  marked_online :
      is_offline s ≡ false → is_offline (Articles.mark_all_read duck true now feed s) ≡ false
  unfolding Articles.mark_all_read
  marked_online h = still_online s.off_cache h

  pub no_unread :
      (limit offset : ℕ) (asc : Bool)
      → (feed =str "") ≡ false
      → is_offline s ≡ false
      → Distinct (lance.articles s.db)
      → All
          (λ (a : Article). a.is_read ≡ true → (overlaid s.cache a).is_read ≡ true)
          (lance.articles s.db)
      → Articles.get_articles gives_rows feed limit offset true asc
          (Articles.mark_all_read duck true now feed s)
        ≡ (ok [], Articles.mark_all_read duck true now feed s)
  unfolding Articles.get_articles read_through after_query
  no_unread limit offset asc h on distinct kept =
      let page : List Article → List Article = λ v. map without_content (
        take limit
          (drop offset (sort_by (by_published asc) (keep_if (article_filter feed true) v)))) in
      let empty : page (view (Articles.mark_all_read duck true now feed s)) ≡ [] =
        ap page (view-mark_all_read duck now feed s distinct)
        ∙ ap (λ v. map without_content (take limit (drop offset (sort_by (by_published asc) v))))
            (kept_none (article_filter feed true) (shown_after s.cache feed) (lance.articles s.db)
              (All-map (lance.articles s.db) (λ a read. not_listed s.cache feed a h read) kept))
        ∙ empty_page (by_published asc) limit offset in
      rw (marked_online on, empty) refl
