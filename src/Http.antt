-- ===== src/Http.antt =====
-- Requests and responses of the HTTP handlers, server/api/helpers.go and what they use of net/http.
pub mod Articles
pub mod Logs
pub mod Settings
pub mod Feeds
pub mod ReadYourWrites
use Prim.Native.String.{◌++◌ as append}
use rss_lance.Base.{
  List, [], ◌∷◌, ◌++◌, ℕ, String, Bool, true, false, Option, none, some, code, ◌==◌, ◌=str◌, ◌≡◌,
  refl, ap, if◌then◌else◌, arith,
}
use rss_lance.Base.Int.{ℤ, pos, negsuc}
use rss_lance.Types.{LogEntry}
use rss_lance.ServerLogger.{ServerLogger}

pub data Method : Type 0 where
  get post put delete other : Method

abbrev pub is_get : Method → Bool
is_get get = true
is_get m = false

abbrev pub is_post : Method → Bool
is_post post = true
is_post m = false

abbrev pub is_put : Method → Bool
is_put put = true
is_put m = false

abbrev pub is_delete : Method → Bool
is_delete delete = true
is_delete m = false

-- A response: a JSON value under status 200, one under 202 whose content type is not set, a JSON error under a status, or a text under one.
pub data Response (A : Type 0) : Type 0 where
  json_ok : A → Response A
  json_error : ℕ → Response A
  json_accepted : A → Response A
  http_error : ℕ → Response A
  -- The handler panicked, and net/http closes the connection.
  no_answer : Response A

-- A handler's state: the store's, the logger (nil where it was not set), and the entries passed to
-- `WriteLog` so far.
pub record Served (State : Type 0) : Type 0 where
  pub state : State
  pub logger : Option ServerLogger
  pub written : List LogEntry

abbrev pub add_entry : Option LogEntry → List LogEntry → List LogEntry
add_entry none es = es
add_entry (some e) es = es ++ e ∷ []

-- strings.TrimPrefix.
unfoldable pub trim_prefix_or : String → String → String → String
trim_prefix_or whole String.[] s = s
trim_prefix_or whole (String.◌∷◌ c p) String.[] = whole
trim_prefix_or whole (String.◌∷◌ c p) (String.◌∷◌ d s) =
    let rest = trim_prefix_or whole p s in if code c == code d then rest else whole

unfoldable pub trim_prefix : String → String → String
unfolding trim_prefix_or
trim_prefix s prefix = trim_prefix_or s prefix s

-- strings.SplitN at "/" into two parts at most: what stands in front of the first one, and behind it.
unfoldable pub split_slash : String → String × Option String
split_slash String.[] = ("", none)
split_slash (String.◌∷◌ c s) =
    let (part, rest) = split_slash s in
    if code c == 47 then ("", some s) else (String.◌∷◌ c part, rest)

-- `queryInt`: `atoi` is strconv.Atoi, none its error.
int_or : ℕ → Option ℤ → ℕ
int_or def none = def
int_or def (some (pos n)) = n
int_or def (some (negsuc n)) = def

unfoldable pub query_int : (String → Option ℤ) → String → ℕ → ℕ
unfolding int_or
query_int atoi s def = if s =str "" then def else int_or def (atoi s)

-- strings.Trim of "/".
unfoldable pub trim_left : String → String
trim_left String.[] = ""
trim_left (String.◌∷◌ c s) = let rest = trim_left s in if code c == 47 then rest else String.◌∷◌ c s

unfoldable pub trim_right : String → String
trim_right String.[] = ""
trim_right (String.◌∷◌ c s) =
    let rest = trim_right s in
    if code c == 47 then (if rest =str "" then "" else String.◌∷◌ c rest) else String.◌∷◌ c rest

unfoldable pub trim_slashes : String → String
unfolding trim_left trim_right
trim_slashes s = trim_right (trim_left s)

unfoldable pub has_no_slash : String → Bool
has_no_slash String.[] = true
has_no_slash (String.◌∷◌ c s) = let rest = has_no_slash s in if code c == 47 then false else rest

-- One text behind another, by clauses.
unfoldable pub followed_by : String → String → String
followed_by String.[] s = s
followed_by (String.◌∷◌ c p) s = String.◌∷◌ c (followed_by p s)

trim_prefix_or-followed_by : (p s whole : String) → trim_prefix_or whole p (followed_by p s) ≡ s
unfolding trim_prefix_or followed_by
trim_prefix_or-followed_by String.[] s whole = refl
trim_prefix_or-followed_by (String.◌∷◌ c p) s whole =
    ground (arith, trim_prefix_or-followed_by p s whole)

pub trim_prefix-followed_by : (p s : String) → trim_prefix (followed_by p s) p ≡ s
unfolding trim_prefix
trim_prefix-followed_by p s = trim_prefix_or-followed_by p s (followed_by p s)

head_and_tail : (b rest : Bool) → (if b then false else rest) ≡ true → (b ≡ false) × (rest ≡ true)
head_and_tail true rest h = cc
head_and_tail false rest h = (refl, h)

pub split_slash-followed_by :
    (id rest : String)
    → has_no_slash id ≡ true
    → split_slash (followed_by id (followed_by "/" rest)) ≡ (id, some rest)
unfolding split_slash has_no_slash followed_by
split_slash-followed_by String.[] rest h = refl
split_slash-followed_by (String.◌∷◌ c s) rest h =
    let parts = head_and_tail (code c == 47) (has_no_slash s) h in
    rw (parts.0, split_slash-followed_by s rest parts.1)

pub split_slash_whole : (id : String) → has_no_slash id ≡ true → split_slash id ≡ (id, none)
unfolding split_slash has_no_slash
split_slash_whole String.[] h = refl
split_slash_whole (String.◌∷◌ c s) h =
    let parts = head_and_tail (code c == 47) (has_no_slash s) h in
    rw (parts.0, split_slash_whole s parts.1)
