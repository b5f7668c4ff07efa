-- ===== src/WriteCache/Overlay.antt =====
-- What the overlay shows after each change of the write cache.
use rss_lance.Base.{String, Bool, some, ◌≡◌, refl, arith, eq_iff, ◌=str◌, if◌then◌else◌}
use rss_lance.Base.Assoc.{lookup, lookup-insert}
use rss_lance.Types.{Article}
use rss_lance.WriteCache.{WriteCache, set_read, set_starred, clear, overlaid, override_or_new}

pub overlaid-set_read :
    (id : String) (b : Bool) (c : WriteCache) (a : Article)
    → overlaid (set_read id b c) a
      ≡ (if id =str a.article_id then record (overlaid c a) { is_read = b } else overlaid c a)
unfolding overlaid set_read
overlaid-set_read id b c a = ground (
  arith,
  lookup-insert id a.article_id
      (record (override_or_new (lookup id c.pending)) { is_read = some b }) c.pending,
  eq_iff id a.article_id,
)

pub overlaid-set_starred :
    (id : String) (b : Bool) (c : WriteCache) (a : Article)
    → overlaid (set_starred id b c) a
      ≡ (if id =str a.article_id then record (overlaid c a) { is_starred = b } else overlaid c a)
unfolding overlaid set_starred
overlaid-set_starred id b c a = ground (
  arith,
  lookup-insert id a.article_id
      (record (override_or_new (lookup id c.pending)) { is_starred = some b }) c.pending,
  eq_iff id a.article_id,
)

pub overlaid-clear : (c : WriteCache) (a : Article) → overlaid (clear c) a ≡ a
unfolding overlaid clear lookup
overlaid-clear c a = refl
