-- ===== src/Sql.antt =====
-- The texts of SQL that the server writes itself: `escapeSQ` of server/db/store.go, and `joinStrings`
-- and `buildIDFilter` of server/db/lance_writer.go. A text is the list of its code points.
pub mod Literals
use Prim.Native.String.{String}
use rss_lance.Base.{ℕ, suc, List, [], ◌∷◌, ◌++◌, map, code, ◌==◌, if◌then◌else◌}

-- The code points of a text of the source.
abbrev pub codes : String → List ℕ
codes String.[] = []
codes (String.◌∷◌ c text) = code c ∷ codes text

abbrev pub quote : ℕ
quote = 39

-- `escapeSQ`.
unfoldable pub escape_sq : List ℕ → List ℕ
escape_sq [] = []
escape_sq (c ∷ s) = let out = escape_sq s in if c == quote then quote ∷ quote ∷ out else c ∷ out

-- `"'" + escapeSQ(id) + "'"`.
unfoldable pub quoted : List ℕ → List ℕ
unfolding escape_sq
quoted id = quote ∷ (escape_sq id ++ quote ∷ [])

-- The rounds of `joinStrings` with i > 0.
join_more : List ℕ → List (List ℕ) → List ℕ
join_more sep [] = []
join_more sep (s ∷ ss) = sep ++ (s ++ join_more sep ss)

-- `joinStrings`.
unfoldable pub join_strings : List (List ℕ) → List ℕ → List ℕ
unfolding join_more
join_strings [] sep = []
join_strings (s ∷ ss) sep = s ++ join_more sep ss

-- `buildIDFilter`.
unfoldable pub build_id_filter : List (List ℕ) → List ℕ
unfolding quoted join_strings
build_id_filter (id ∷ []) = codes "article_id = " ++ quoted id
build_id_filter ids =
    codes "article_id IN (" ++ (join_strings (map quoted ids) (codes ", ") ++ codes ")")
