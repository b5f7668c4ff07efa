-- ===== src/Tests/HttpFeeds.antt =====
-- Requests for feeds.
use rss_lance.Base.{
  ℕ, String, List, [], Bool, true, false, Option, none, ◌≡◌, refl, ◌=str◌, All, if◌then◌else◌,
}
use rss_lance.Base.Assoc.{lookup}
use rss_lance.Base.Int.{ℤ}
use rss_lance.Types.{Article, Feed}
use rss_lance.WriteCache.{overlaid}
use rss_lance.Offline.{contains}
use rss_lance.Store.{Store, is_offline}
use rss_lance.Store.MarkedRead.{Distinct}
use rss_lance.Http.{Served, json_ok, trim_prefix, trim_slashes, split_slash}
use rss_lance.Http.Feeds.{Details, articles, done, tail_of}
use rss_lance.Http.Feeds.MarkAllRead.{Names, served, posting, listing, served-posting-listing}
use rss_lance.Tests.Data.{list_lance, always, fresh_store, two_articles}

abbrev no_feeds : list_lance.Db → List Feed
no_feeds db = []

abbrev as_listed : Feed → Feed → Bool
as_listed f g = false

abbrev not_queued : String → String → Store list_lance → Bool × Store list_lance
not_queued url category s = (false, s)

abbrev no_numbers : String → Option ℤ
no_numbers s = none

abbrev no_details : Details
no_details = record { of_url = λ url category. none; of_feed = λ id. none }

abbrev uuids : ℕ → String
uuids n = "u"

abbrev start : Served (Store list_lance)
start = record { state = fresh_store; logger = none; written = [] }

abbrev only_unread : String → String
only_unread name = if name =str "unread" then "true" else ""

marking : Names "/api/feeds/f/mark-all-read" "f" "mark-all-read"
unfolding tail_of trim_prefix trim_slashes split_slash
marking = record { not_empty = refl; parts = refl }

listed : Names "/api/feeds/f/articles" "f" "articles"
unfolding tail_of trim_prefix trim_slashes split_slash
listed = record { not_empty = refl; parts = refl }

online : is_offline fresh_store ≡ false
unfolding is_offline
online = refl

distinct : Distinct two_articles.article_rows
unfolding Distinct contains
distinct = (refl, (refl, tt))

kept :
    All
      (λ (a : Article). a.is_read ≡ true → (overlaid fresh_store.cache a).is_read ≡ true)
      two_articles.article_rows
unfolding overlaid lookup
kept = (λ e. e, (λ e. e, tt))

served-posting-listing_example :
    let s' =
      (served no_feeds as_listed not_queued always 5 no_numbers no_details uuids
        (posting "/api/feeds/f/mark-all-read")
        start) in
    (s'.0 ≡ json_ok done)
    × ((served no_feeds as_listed not_queued always 5 no_numbers no_details uuids
          (listing "/api/feeds/f/articles" only_unread)
          s'.1).0
        ≡ json_ok (articles []))
served-posting-listing_example =
    served-posting-listing no_feeds as_listed not_queued always 5 no_numbers no_details uuids
      "/api/feeds/f/mark-all-read" "/api/feeds/f/articles" "f" only_unread start marking listed refl
      refl online distinct kept
