-- ===== src/Tests/Snapshots.antt =====
-- A snapshot of three articles in pages of two.
use rss_lance.Base.{List, [], ◌∷◌, false, some, ◌≡◌, refl, arith, keep_if, take, drop}
use rss_lance.Types.{Article}
use rss_lance.Offline.Snapshot.{Source, recent, collect}
use rss_lance.Offline.Snapshot.Pages.{collect_lem}
use rss_lance.Tests.Data.{article}

abbrev rows : List Article
rows =
    record (article "a" "f" false false) { updated_at = some 9 }
    ∷ article "b" "f" false false
    ∷ record (article "c" "f" false false) { published_at = some 8 }
    ∷ []

abbrev source : Source
source = record {
  articles = λ limit offset. some (take limit (drop offset rows));
  article_batch = λ ids. some rows;
  feeds = some [];
  categories = some [];
  settings = some [];
}

collect_lem_example : collect source 4 5 2 0 ≡ some (keep_if (recent 5) rows)
collect_lem_example = collect_lem source 5 2 rows (λ offset. refl) (omega arith) 4 (omega arith)
