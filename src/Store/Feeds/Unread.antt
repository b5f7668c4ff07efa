-- ===== src/Store/Feeds/Unread.antt =====
-- The unread counts of the feeds against the list of unread articles.
use rss_lance.Base.{
  ℕ, min, List, [], ◌∷◌, Bool, true, false, ◌≡◌, refl, ap, ◌∙◌, ◌=str◌, keep_if, map, length, take,
  length-take, length-map, All, All-map,
}
use rss_lance.Types.{Article, Feed}
use rss_lance.Offline.{sort_by}
use rss_lance.Offline.Sorting.{length-sort_by, All-sort_by}
use rss_lance.Offline.Reads.{article_filter, by_published, without_content}
use rss_lance.Writer.{Lance}
use rss_lance.Store.{gives_rows, Store, Result, ok, failed, is_offline}
use rss_lance.Store.Articles.{view, read_through, after_query, get_articles}
use rss_lance.Store.Feeds.{unread_in, with_unread, get_feeds}

-- The rows of an answer.
abbrev pub listed : {A : Type 0} → Result (List A) → List A
listed (ok rows) = rows
listed failed = []

counts :
    (f : Feed) (a : Article)
    → (f.feed_id =str "") ≡ false
    → article_filter f.feed_id true a ≡ unread_in f a
unfolding article_filter
counts f a ne = rw ne

counted :
    (f : Feed) (shown : List Article)
    → (f.feed_id =str "") ≡ false
    → keep_if (article_filter f.feed_id true) shown ≡ keep_if (unread_in f) shown
counted f [] ne = refl
counted f (a ∷ shown) ne = rw (counts f a ne, counted f shown ne)

All-each :
    {A B : Type 0} (P : B → Type 0) (g : A → B) (xs : List A)
    → All (λ x. P (g x)) xs
    → All P (map g xs)
All-each P g [] h = tt
All-each P g (x ∷ xs) h = (h.0, All-each P g xs h.1)

module _ {lance : Lance} where
  shown_unread :
      (s : Store lance) (f : Feed)
      → is_offline s ≡ false
      → (f.feed_id =str "") ≡ false
      → (limit : ℕ) (asc : Bool)
      → length (listed (get_articles gives_rows f.feed_id limit 0 true asc s).0)
        ≡ min limit (length (keep_if (unread_in f) (view s)))
  unfolding get_articles read_through after_query
  shown_unread s f on ne limit asc =
      rw on
        let found = keep_if (article_filter f.feed_id true) (view s) in
          let rows = sort_by (by_published asc) found in
          length-map without_content (take limit rows)
          ∙ length-take limit rows
          ∙ ap (min limit)
              (length-sort_by (by_published asc) found ∙ ap length (counted f (view s) ne))

  -- While Lance answers, the unread count that the list of feeds shows for a feed is the number of rows
  -- in the list of its unread articles, as far as the limit of that list lets them through, in both
  -- orders: the two queries see the same pending changes. The ids of the feeds are not empty.
  pub get_feeds-get_articles :
      (feeds : lance.Db → List Feed) (title_less : Feed → Feed → Bool) (s : Store lance)
      → is_offline s ≡ false
      → All (λ (f : Feed). (f.feed_id =str "") ≡ false) (feeds s.db)
      → (limit : ℕ) (asc : Bool)
      → All
          (λ (f : Feed).
            length (listed (get_articles gives_rows f.feed_id limit 0 true asc s).0)
            ≡ min limit f.unread_count)
          (listed (get_feeds feeds title_less gives_rows s).0)
  unfolding get_feeds read_through after_query
  get_feeds-get_articles feeds title_less s on ids limit asc =
      rw on
        let P : Feed → Type 0 = λ f.
            length (listed (get_articles gives_rows f.feed_id limit 0 true asc s).0)
            ≡ min limit f.unread_count in
          All-sort_by title_less P (map (with_unread (view s)) (feeds s.db)) (
            All-each P (with_unread (view s)) (feeds s.db)
              (All-map (feeds s.db) (λ f ne. shown_unread s f on ne limit asc) ids))
