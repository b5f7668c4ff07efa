-- ===== src/Offline/Snapshot.antt =====
-- `Snapshot` of server/db/offline_cache.go: the articles are read in pages, their contents in batches,
-- and all is written into the cache.
pub mod Pages
use rss_lance.Base.{
  ℕ, zero, suc, ◌+◌, String, List, [], ◌∷◌, ◌++◌, Bool, true, false, Option, none, some, ◌=str◌,
  ltb, if◌then◌else◌, keep_if, map, length, take, drop,
}
use rss_lance.Base.Assoc.{Assoc, lookup, insert}
use rss_lance.Types.{Article, Feed, Category}
use rss_lance.Offline.{OfflineCache}
use rss_lance.Offline.Snapshots.{
  snapshot_articles, snapshot_feeds, snapshot_categories, snapshot_settings, update_last_snapshot,
}

-- What is asked of the `Store`: `articles` by limit and offset. `none` is an error. The tables stand
-- still while the snapshot is taken.
pub record Source : Type 0 where
  pub articles : ℕ → ℕ → Option (List Article)
  pub article_batch : List String → Option (List Article)
  pub feeds : Option (List Feed)
  pub categories : Option (List Category)
  pub settings : Option (Assoc String)

-- `t.After(cutoff)`.
abbrev later : ℕ → Option ℕ → Bool
later cutoff none = false
later cutoff (some t) = ltb cutoff t

abbrev recent_by : ℕ → Option ℕ → Option ℕ → Bool
recent_by cutoff (some t) published = ltb cutoff t
recent_by cutoff none published = later cutoff published

-- Within the window: by the time of the update, else by that of the publication.
abbrev pub recent : ℕ → Article → Bool
recent cutoff a = recent_by cutoff a.updated_at a.published_at

abbrev and_then : List Article → Option (List Article) → Option (List Article)
and_then page none = none
and_then page (some more) = some (page ++ more)

abbrev ids_without_content : List Article → List String
ids_without_content [] = []
ids_without_content (a ∷ rows) =
    let rest = ids_without_content rows in if a.content =str "" then a.article_id ∷ rest else rest

abbrev add_contents : List Article → Assoc String → Assoc String
add_contents [] m = m
add_contents (a ∷ rows) m = add_contents rows (insert a.article_id a.content m)

abbrev add_batch : Option (List Article) → Assoc String → Assoc String
add_batch none m = m
add_batch (some rows) m = add_contents rows m

abbrev content_or : String → Option String → String
content_or old none = old
content_or old (some c) = if c =str "" then old else c

abbrev pub with_content : Assoc String → Article → Article
with_content m a = record a { content = content_or a.content (lookup a.article_id m) }

-- One page: its recent articles, and the further pages where it is full.
next_page : ℕ → ℕ → Option (List Article) → Option (List Article) → Option (List Article)
next_page cutoff size none rest = none
next_page cutoff size (some page) rest =
    and_then (keep_if (recent cutoff) page) (if ltb (length page) size then some [] else rest)

module _ (source : Source) where
  -- The loop over the pages, on fuel; `none` is an error, or the end of the fuel.
  unfoldable pub collect : ℕ → ℕ → ℕ → ℕ → Option (List Article)
  unfolding next_page
  collect zero cutoff size offset = none
  collect (suc fuel) cutoff size offset =
      let rest = collect fuel cutoff size (offset + size) in
      next_page cutoff size (source.articles size offset) rest

  -- The loop over the batches of 100 ids; a batch that fails adds nothing.
  fetch_contents : ℕ → List String → Assoc String → Assoc String
  unfolding lookup insert
  fetch_contents zero ids m = m
  fetch_contents (suc fuel) [] m = m
  fetch_contents (suc fuel) (id ∷ ids) m =
      fetch_contents fuel (drop 100 (id ∷ ids))
        (add_batch (source.article_batch (take 100 (id ∷ ids))) m)

  -- The contents of the articles that came without. There are no more batches than ids.
  unfoldable pub complete : List Article → List Article
  unfolding fetch_contents
  complete rows =
      let ids = ids_without_content rows in
      map (with_content (fetch_contents (length ids) ids [])) rows

  -- The four writes, each behind its read: an error ends the snapshot where it stands.
  write_settings : (ℕ → Bool) → ℕ → Option (Assoc String) → OfflineCache → Bool × OfflineCache
  unfolding snapshot_settings update_last_snapshot
  write_settings duck now none oc = (false, oc)
  write_settings duck now (some settings) oc =
      let (ran, oc') = snapshot_settings duck settings oc in
      if ran then (true, update_last_snapshot now oc') else (false, oc')

  write_categories : (ℕ → Bool) → ℕ → Option (List Category) → OfflineCache → Bool × OfflineCache
  unfolding snapshot_categories write_settings
  write_categories duck now none oc = (false, oc)
  write_categories duck now (some categories) oc =
      let (ran, oc') = snapshot_categories duck categories oc in
      if ran then write_settings duck now source.settings oc' else (false, oc')

  write_feeds : (ℕ → Bool) → ℕ → Option (List Feed) → OfflineCache → Bool × OfflineCache
  unfolding snapshot_feeds write_categories
  write_feeds duck now none oc = (false, oc)
  write_feeds duck now (some feeds) oc =
      let (ran, oc') = snapshot_feeds duck feeds oc in
      if ran then write_categories duck now source.categories oc' else (false, oc')

  write_articles : (ℕ → Bool) → ℕ → Option (List Article) → OfflineCache → Bool × OfflineCache
  unfolding snapshot_articles complete write_feeds
  write_articles duck now none oc = (false, oc)
  write_articles duck now (some rows) oc =
      let (ran, oc') = snapshot_articles duck (complete rows) oc in
      if ran then write_feeds duck now source.feeds oc' else (false, oc')

  -- `Snapshot`: true where it returns no error.
  unfoldable pub snapshot : ℕ → (ℕ → Bool) → ℕ → ℕ → OfflineCache → Bool × OfflineCache
  unfolding collect write_articles
  snapshot fuel duck now cutoff oc = write_articles duck now (collect fuel cutoff 5000 0) oc
