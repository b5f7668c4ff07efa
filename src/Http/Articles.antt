-- ===== src/Http/Articles.antt =====
-- `ArticlesHandler` of server/api/articles.go, over a store of articles.
use rss_lance.Base.{
  ℕ, String, List, [], ◌∷◌, Bool, true, false, ◌&&◌, Option, none, some, ◌=str◌, if◌then◌else◌,
  take,
}
use rss_lance.Base.Int.{ℤ}
use rss_lance.Types.{Article}
use rss_lance.Store.{Result, ok, failed}
use rss_lance.Http.{
  is_get, is_post, Method, Response, json_ok, json_error, http_error, trim_prefix, split_slash,
  query_int,
}

-- What the handler asks of the store. A change gives true where it returns no error.
pub record ArticleStore : Type 1 where
  pub State : Type 0
  pub get_articles : String → ℕ → ℕ → Bool → Bool → State → Result (List Article) × State
  pub get_article : String → State → Result (Option Article) × State
  pub get_article_batch : List String → State → Result (List Article) × State
  pub set_article_read : String → Bool → State → Bool × State
  pub set_article_starred : String → Bool → State → Bool × State

-- What is read of a request. `query` is "" for a parameter that is not there, and `ids` is what the
-- body decodes to, none where it does not.
pub record Request : Type 0 where
  pub method : Method
  pub path : String
  pub query : String → String
  pub ids : Option (List String)

-- The values that are sent as JSON.
pub data Payload : Type 0 where
  articles : List Article → Payload
  article : Article → Payload
  done : Payload

abbrev or_empty : Option String → String
or_empty none = ""
or_empty (some action) = action

module _ (store : ArticleStore) (atoi : String → Option ℤ) where
  open store use {State}

  unfoldable pub list_response : Result (List Article) × State → Response Payload × State
  list_response (ok arts, s) = (json_ok (articles arts), s)
  list_response (failed, s) = (json_error 500, s)

  unfoldable pub article_response : Result (Option Article) × State → Response Payload × State
  article_response (ok (some art), s) = (json_ok (article art), s)
  article_response (ok none, s) = (http_error 404, s)
  article_response (failed, s) = (json_error 500, s)

  unfoldable pub change_response : Bool × State → Response Payload × State
  change_response (true, s) = (json_ok done, s)
  change_response (false, s) = (json_error 500, s)

  -- `listAll`.
  list_all : Request → State → Response Payload × State
  unfolding list_response query_int
  list_all r s = list_response (
      store.get_articles "" (query_int atoi (r.query "limit") 50)
        (query_int atoi (r.query "offset") 0) (r.query "unread" =str "true")
        (r.query "sort" =str "asc") s)

  -- `getBatch`, with its cap of 100 ids.
  get_batch : Option (List String) → State → Response Payload × State
  unfolding list_response
  get_batch none s = (http_error 400, s)
  get_batch (some []) s = (http_error 400, s)
  get_batch (some (id ∷ ids)) s = list_response (store.get_article_batch (take 100 (id ∷ ids)) s)

  -- The switch on the action.
  unfoldable pub act : Method → String → String → State → Response Payload × State
  unfolding article_response change_response
  act m id action s =
      if action =str "" && is_get m
      then article_response (store.get_article id s)
      else if action =str "read" && is_post m
      then change_response (store.set_article_read id true s)
      else if action =str "unread" && is_post m
      then change_response (store.set_article_read id false s)
      else if action =str "star" && is_post m
      then change_response (store.set_article_starred id true s)
      else if action =str "unstar" && is_post m
      then change_response (store.set_article_starred id false s)
      else (http_error 404, s)

  -- The rest of `Handle`, with the parts of the path.
  unfoldable pub route : Request → String × Option String → State → Response Payload × State
  unfolding list_all get_batch act
  route r (id, rest) s =
      if id =str ""
      then (if is_get r.method then list_all r s else (http_error 405, s))
      else if id =str "batch" && is_post r.method
      then get_batch r.ids s
      else act r.method id (or_empty rest) s

  -- `Handle`. The entries it logs are left out.
  unfoldable pub handle : Request → State → Response Payload × State
  unfolding route trim_prefix split_slash
  handle r s = route r (split_slash (trim_prefix r.path "/api/articles/")) s
