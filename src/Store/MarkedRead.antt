-- ===== src/Store/MarkedRead.antt =====
-- What the store shows of the articles after `MarkAllRead`.
pub mod NoneLeft
use rss_lance.Base.{
  ℕ, String, List, [], ◌∷◌, Bool, true, false, not, ◌&&◌, ◌≡◌, refl, ◌∙◌, arith, eq_iff, eq_refl,
  ◌=str◌, if◌then◌else◌, keep_if, map, All, All-map, map-All,
}
use rss_lance.Types.{Article}
use rss_lance.WriteCache.{WriteCache, set_read, overlaid}
use rss_lance.WriteCache.Overlay.{overlaid-set_read}
use rss_lance.Offline.{contains}
use rss_lance.Writer.{Lance}
use rss_lance.Store.{Store}
use rss_lance.Store.Articles.{view, set_reads, mark_all_read}

abbrev ids : List Article → List String
ids rows = map (λ (a : Article). a.article_id) rows

-- No two rows have the same id.
unfoldable pub Distinct : List Article → Type 0
Distinct [] = Unit
Distinct (a ∷ rows) = (contains a.article_id (ids rows) ≡ false) × Distinct rows

overlaid-set_reads :
    (rows : List Article) (c : WriteCache) (a : Article)
    → overlaid (set_reads rows c) a ≡ (
        if contains a.article_id (ids rows)
        then record (overlaid c a) { is_read = true }
        else overlaid c a)
unfolding set_reads contains
overlaid-set_reads [] c a = refl
overlaid-set_reads (r ∷ rows) c a =
    overlaid-set_reads rows (set_read r.article_id true c) a
    ∙ rw (overlaid-set_read r.article_id true c a) (ground arith)

All-both :
    (P Q : Article → Type 0) (rows : List Article)
    → All P rows
    → All Q rows
    → All (λ a. P a × Q a) rows
All-both P Q [] g h = tt
All-both P Q (a ∷ rows) g h = ((g.0, h.0), All-both P Q rows g.1 h.1)

module _ (p : Article → Bool) where
  contains-keep_if :
      (x : String) (rows : List Article)
      → contains x (ids rows) ≡ false
      → contains x (ids (keep_if p rows)) ≡ false
  unfolding contains
  contains-keep_if x [] h = refl
  contains-keep_if x (r ∷ rows) h = ground (arith, contains-keep_if x rows)

  others_differ :
      (x : String) (rows : List Article)
      → contains x (ids rows) ≡ false
      → All (λ (a : Article). (x =str a.article_id) ≡ false) rows
  unfolding contains
  others_differ x [] h = tt
  others_differ x (r ∷ rows) h = (
    ground (arith, eq_iff x r.article_id, eq_iff r.article_id x),
    others_differ x rows (ground arith),
  )

  kept_ids :
      (rows : List Article)
      → Distinct rows
      → All (λ (a : Article). contains a.article_id (ids (keep_if p rows)) ≡ p a) rows
  unfolding contains Distinct
  kept_ids [] h = tt
  kept_ids (r ∷ rows) h = (
    ground (arith, contains-keep_if r.article_id rows h.0, eq_refl r.article_id),
    All-map rows (λ a both. ground (arith, both.0, both.1))
        (All-both _ _ rows (others_differ r.article_id rows h.0) (kept_ids rows h.1)),
  )

-- The rows that the query of `MarkAllRead` finds.
abbrev pub marked : String → Article → Bool
marked feed a = a.feed_id =str feed && not a.is_read

module _ {lance : Lance} where
  -- After a `MarkAllRead` whose query succeeds, the store shows as read each article of the feed that is
  -- unread in Lance, and shows every other article as before: also one of the feed that Lance has as
  -- read, and that the user has marked unread since. The ids of the articles in Lance are distinct.
  pub view-mark_all_read :
      (duck : ℕ → Bool) (now : ℕ) (feed : String) (s : Store lance)
      → Distinct (lance.articles s.db)
      → view (mark_all_read duck true now feed s)
        ≡ map
            (λ (a : Article).
              if marked feed a
              then record (overlaid s.cache a) { is_read = true }
              else overlaid s.cache a)
            (lance.articles s.db)
  unfolding view mark_all_read
  view-mark_all_read duck now feed s h = map-All _ _ (lance.articles s.db) (
      All-map (lance.articles s.db)
        (λ a found.
          overlaid-set_reads (keep_if (marked feed) (lance.articles s.db)) s.cache a ∙ rw found)
        (kept_ids (marked feed) (lance.articles s.db) h))
