-- ===== src/WriteCache.antt =====
-- The overlay of article changes that Lance does not have yet, server/db/cache.go. Each method holds
-- the lock throughout, so it is a function on the cache.
pub mod Overlay
use rss_lance.Base.{
  ℕ, suc, String, List, [], ◌∷◌, Bool, true, false, Option, none, some, if◌then◌else◌,
}
use rss_lance.Base.Assoc.{Assoc, lookup, insert, erase}
use rss_lance.Types.{Override, Article}

pub record WriteCache : Type 0 where
  pub pending : Assoc Override
  pub stopped : Bool

-- `newWriteCache`.
abbrev pub new_write_cache : WriteCache
new_write_cache = record { pending = []; stopped = false }

abbrev pub no_override : Override
no_override = record { is_read = none; is_starred = none }

-- The override of an article, or a fresh one.
abbrev pub override_or_new : Option Override → Override
override_or_new none = no_override
override_or_new (some ov) = ov

-- `setRead`.
unfoldable pub set_read : String → Bool → WriteCache → WriteCache
set_read id is_read c =
    let ov = override_or_new (lookup id c.pending) in
    record c { pending = insert id (record ov { is_read = some is_read }) c.pending }

-- `setStarred`.
unfoldable pub set_starred : String → Bool → WriteCache → WriteCache
set_starred id is_starred c =
    let ov = override_or_new (lookup id c.pending) in
    record c { pending = insert id (record ov { is_starred = some is_starred }) c.pending }

erase_all : List String → Assoc Override → Assoc Override
erase_all [] m = m
erase_all (id ∷ ids) m = erase_all ids (erase id m)

-- `clearFeed`.
unfoldable pub clear_feed : List String → WriteCache → WriteCache
unfolding erase_all
clear_feed ids c = record c { pending = erase_all ids c.pending }

-- `clear`.
unfoldable pub clear : WriteCache → WriteCache
clear c = record c { pending = [] }

-- `close`.
unfoldable pub close : WriteCache → WriteCache
close c = if c.stopped then c else record c { stopped = true }

abbrev count_set : Option Bool → ℕ → ℕ
count_set none n = n
count_set (some b) n = suc n

count_overrides : Assoc Override → ℕ × ℕ
count_overrides [] = (0, 0)
count_overrides ((id, ov) ∷ m) =
    let (reads, stars) = count_overrides m in
    (count_set ov.is_read reads, count_set ov.is_starred stars)

-- `Stats`: the numbers of pending read and star overrides.
unfoldable pub stats : WriteCache → ℕ × ℕ
unfolding count_overrides
stats c = count_overrides c.pending

-- SQL's COALESCE of an override's column over the stored one.
abbrev pub coalesce : Option Bool → Bool → Bool
coalesce none b = b
coalesce (some o) b = o

-- A row as the queries with `LEFT JOIN _cache` show it.
unfoldable pub overlay : Option Override → Article → Article
overlay none a = a
overlay (some ov) a = record a {
  is_read = coalesce ov.is_read a.is_read;
  is_starred = coalesce ov.is_starred a.is_starred;
}

-- The row of article `a` as the cache makes a query show it.
unfoldable pub overlaid : WriteCache → Article → Article
unfolding overlay
overlaid c a = overlay (lookup a.article_id c.pending) a
