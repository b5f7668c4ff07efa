-- ===== src/Tests/Http.antt =====
-- Requests for articles.
use rss_lance.Base.{String, Option, false, none, some, ◌≡◌, refl}
use rss_lance.Base.Assoc.{lookup}
use rss_lance.Base.Int.{ℤ}
use rss_lance.Types.{Article}
use rss_lance.WriteCache.{overlaid}
use rss_lance.Offline.Reads.{find_article}
use rss_lance.Store.{is_offline}
use rss_lance.Store.Articles.{view, detail}
use rss_lance.Store.Changed.{star, changed}
use rss_lance.Http.{json_ok, has_no_slash}
use rss_lance.Http.Articles.{article, done}
use rss_lance.Http.ReadYourWrites.{IsArticleId, posting, getting, served, served-posting-getting}
use rss_lance.Tests.Data
use rss_lance.Tests.Data.{always, fresh_store}

abbrev no_numbers : String → Option ℤ
no_numbers s = none

a-IsArticleId : IsArticleId "a"
unfolding has_no_slash
a-IsArticleId = record { no_slash = refl; not_empty = refl; not_batch = refl }

b-IsArticleId : IsArticleId "b"
unfolding has_no_slash
b-IsArticleId = record { no_slash = refl; not_empty = refl; not_batch = refl }

abbrev starred : Article
starred = Data.article "a" "f" false false

online : is_offline fresh_store ≡ false
unfolding is_offline
online = refl

shown : find_article "a" (view fresh_store) ≡ some starred
unfolding find_article view overlaid lookup
shown = refl

served-posting-getting_example :
    let s' = (served always 5 no_numbers (posting "a" star) fresh_store).1 in
    ((served always 5 no_numbers (posting "a" star) fresh_store).0 ≡ json_ok done)
    × (served always 5 no_numbers (getting "a") s'
        ≡ (json_ok (article (detail (changed star starred))), s'))
    × ((served always 5 no_numbers (getting "b") s').0
        ≡ (served always 5 no_numbers (getting "b") fresh_store).0)
served-posting-getting_example =
    served-posting-getting always 5 no_numbers star "a" "b" fresh_store starred a-IsArticleId
      b-IsArticleId refl online shown
