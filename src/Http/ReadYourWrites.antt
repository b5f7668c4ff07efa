-- ===== src/Http/ReadYourWrites.antt =====
-- What the handler answers for an article right after it has been changed.
use mathlib.Core.Option
use rss_lance.Base.{
  ℕ, String, Bool, true, false, Option, none, some, ◌≡◌, refl, ap, sym, ◌∙◌, eq_refl, ◌=str◌,
}
use rss_lance.Base.Int.{ℤ}
use rss_lance.Types.{Article}
use rss_lance.Offline.Reads.{find_article}
use rss_lance.Writer.{Lance}
use rss_lance.Store.{Query, gives_rows, Store, ok, is_offline}
use rss_lance.Store.Articles.{
  view, detail, read_through, after_query, get_articles, get_article, get_article_batch,
  set_article_read, set_article_starred,
}
use rss_lance.Http.{
  Method, get, post, json_ok, Response, split_slash, has_no_slash, followed_by,
  trim_prefix-followed_by, split_slash-followed_by, split_slash_whole,
}
use rss_lance.Http.Articles.{
  ArticleStore, Request, article, done, act, route, handle, Payload, article_response,
}
use rss_lance.Store.Changed.{
  Change, read, unread, star, unstar, changed, change_article, still_online, found_changed,
  unchanged,
}

-- The store over the DuckDB CLI as the handler uses it. A change gives no error.
abbrev pub cli_articles : (lance : Lance) → (ℕ → Bool) → Query → ℕ → ArticleStore
cli_articles lance duck q now = record {
  State = Store lance;
  get_articles = get_articles q;
  get_article = get_article q;
  get_article_batch = get_article_batch q;
  set_article_read = λ id b s. (true, set_article_read duck now id b s);
  set_article_starred = λ id b s. (true, set_article_starred duck now id b s);
}

-- The last part of the path.
abbrev pub word : Change → String
word read = "read"
word unread = "unread"
word star = "star"
word unstar = "unstar"

abbrev pub request : Method → String → Request
request m path = record { method = m; path = path; query = λ name. ""; ids = none }

-- GET of an article, and POST of a change of it.
pub getting : String → Request
getting id = request get (followed_by "/api/articles/" id)

pub posting : String → Change → Request
posting id c =
    request post (followed_by "/api/articles/" (followed_by id (followed_by "/" (word c))))

-- An id that the handler takes for an article's.
pub record IsArticleId (id : String) : Type 0 where
  pub no_slash : has_no_slash id ≡ true
  pub not_empty : (id =str "") ≡ false
  pub not_batch : (id =str "batch") ≡ false

module _ (store : ArticleStore) (atoi : String → Option ℤ) where
  handle-getting :
      (id : String) (s : store.State)
      → IsArticleId id
      → handle store atoi (getting id) s ≡ act store atoi get id "" s
  unfolding getting handle
  handle-getting id s h =
      ap (λ parts. route store atoi (getting id) parts s)
        (ap split_slash (trim_prefix-followed_by "/api/articles/" id)
          ∙ split_slash_whole id h.no_slash)
      ∙ unfold route in rw (h.not_empty, h.not_batch)

  handle-posting :
      (id : String) (c : Change) (s : store.State)
      → IsArticleId id
      → handle store atoi (posting id c) s ≡ act store atoi post id (word c) s
  unfolding posting handle
  handle-posting id c s h =
      ap (λ parts. route store atoi (posting id c) parts s)
        (ap split_slash
            (trim_prefix-followed_by "/api/articles/" (followed_by id (followed_by "/" (word c))))
          ∙ split_slash-followed_by id (word c) h.no_slash)
      ∙ unfold route in rw (h.not_empty, h.not_batch)

module _ {lance : Lance} (duck : ℕ → Bool) (now : ℕ) (atoi : String → Option ℤ) where
  abbrev pub served : Request → Store lance → Response Payload × Store lance
  served = handle (cli_articles lance duck gives_rows now) atoi

  served-posting :
      (id : String) (c : Change) (s : Store lance)
      → IsArticleId id
      → served (posting id c) s ≡ (json_ok done, change_article duck now c id s)
  unfolding act change_article
  served-posting id read s h =
      handle-posting (cli_articles lance duck gives_rows now) atoi id read s h
  served-posting id unread s h =
      handle-posting (cli_articles lance duck gives_rows now) atoi id unread s h
  served-posting id star s h =
      handle-posting (cli_articles lance duck gives_rows now) atoi id star s h
  served-posting id unstar s h =
      handle-posting (cli_articles lance duck gives_rows now) atoi id unstar s h

  online_article :
      (id : String) (s : Store lance)
      → is_offline s ≡ false
      → get_article gives_rows id s ≡ (ok (Option.map detail (find_article id (view s))), s)
  unfolding get_article read_through after_query
  online_article id s on = simp on

  served-getting :
      (id : String) (s : Store lance)
      → IsArticleId id
      → is_offline s ≡ false
      → served (getting id) s
        ≡ article_response
            (cli_articles lance duck gives_rows now)
            atoi
            (ok (Option.map detail (find_article id (view s))), s)
  unfolding act
  served-getting id s h on =
      handle-getting (cli_articles lance duck gives_rows now) atoi id s h
      ∙ ap (article_response (cli_articles lance duck gives_rows now) atoi) (online_article id s on)

  response_alike :
      (o : Option Article) (s s' : Store lance)
      → (article_response
          (cli_articles lance duck gives_rows now)
          atoi
          (ok (Option.map detail o), s)).0
        ≡ (article_response
            (cli_articles lance duck gives_rows now)
            atoi
            (ok (Option.map detail o), s')).0
  unfolding article_response
  response_alike none s s' = refl
  response_alike (some a) s s' = refl

  -- While the store is online and the query of Lance of each GET gives its rows, a POST of a change of an
  -- article answers that it is done, whatever statements of the local cache fail; a GET of the article
  -- then answers it with the change made, and leaves the store as it is; and a GET of any other article
  -- answers what it did before. The article is one that the store shows, and the ids are such as the
  -- handler takes for an article's.
  pub served-posting-getting :
      (c : Change) (id other : String) (s : Store lance) (a : Article)
      → IsArticleId id
      → IsArticleId other
      → (id =str other) ≡ false
      → is_offline s ≡ false
      → find_article id (view s) ≡ some a
      → let s' = (served (posting id c) s).1 in
        ((served (posting id c) s).0 ≡ json_ok done)
        × (served (getting id) s' ≡ (json_ok (article (detail (changed c a))), s'))
        × ((served (getting other) s').0 ≡ (served (getting other) s).0)
  unfolding article_response
  served-posting-getting c id other s a h h' ne on found =
      let on' = still_online duck now c id s on in
      rw (served-posting id c s h) (
        refl,
        served-getting id (change_article duck now c id s) h on'
            ∙ rw (found_changed duck now c id id s, found, eq_refl id),
        ap (λ r. r.0) (served-getting other (change_article duck now c id s) h' on')
            ∙ ap
                (λ o.
                  (article_response (cli_articles lance duck gives_rows now) atoi
                    (ok (Option.map detail o), change_article duck now c id s)).0)
                (found_changed duck now c id other s
                  ∙ unchanged (id =str other) (changed c) (find_article other (view s)) ne)
            ∙ response_alike (find_article other (view s)) (change_article duck now c id s) s
            ∙ sym (ap (λ r. r.0) (served-getting other s h' on)),
      )
