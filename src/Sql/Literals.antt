-- ===== src/Sql/Literals.antt =====
-- The literals of the server's SQL, read back by the rules of SQL.
use rss_lance.Base.{
  ℕ, zero, suc, List, [], ◌∷◌, ◌++◌, Bool, true, false, Option, none, some, ◌≡◌, refl, sym, ap, ◌∙◌,
  arith, append_assoc, append-nil, map, length, ◌==◌, if◌then◌else◌,
}
use rss_lance.Sql.{codes, quote, escape_sq, quoted, join_strings, join_more, build_id_filter}

-- One character more in front of what was read.
abbrev pub prepend : ℕ → Option (List ℕ × List ℕ) → Option (List ℕ × List ℕ)
prepend c none = none
prepend c (some (s, rest)) = some (c ∷ s, rest)

-- SQL reads a literal behind its opening quote: two quotes stand for one, and a single quote ends the
-- literal. `after_quote` says that the last character was a quote that does not stand for itself yet.
pub read_literal : Bool → List ℕ → Option (List ℕ × List ℕ)
read_literal true [] = some ([], [])
read_literal false [] = none
read_literal true (c ∷ s) =
    let more = prepend quote (read_literal false s) in if c == quote then more else some ([], c ∷ s)
read_literal false (c ∷ s) =
    let inside = prepend c (read_literal false s) in
    let ended = read_literal true s in if c == quote then ended else inside

-- What follows a literal does not go on with a quote.
abbrev pub StartsPlain : List ℕ → Type 0
StartsPlain [] = Unit
StartsPlain (c ∷ s) = (c == quote) ≡ false

read_ended : (rest : List ℕ) → StartsPlain rest → read_literal true rest ≡ some ([], rest)
unfolding read_literal
read_ended [] h = refl
read_ended (c ∷ s) h = rw h

pub read_escape_sq :
    (s rest : List ℕ)
    → StartsPlain rest
    → read_literal false (escape_sq s ++ quote ∷ rest) ≡ some (s, rest)
unfolding read_literal escape_sq
read_escape_sq [] rest h = read_ended rest h
read_escape_sq (c ∷ s) rest h = ground (arith, read_escape_sq s rest h)

abbrev expect : ℕ → List ℕ → Option (List ℕ)
expect c [] = none
expect c (d ∷ s) = if d == c then some s else none

-- A text behind a given beginning.
pub strip : List ℕ → List ℕ → Option (List ℕ)
strip [] t = some t
strip (c ∷ s) [] = none
strip (c ∷ s) (d ∷ t) = let rest = strip s t in if c == d then rest else none

abbrev prepend_item : List ℕ → Option (List (List ℕ) × List ℕ) → Option (List (List ℕ) × List ℕ)
prepend_item v none = none
prepend_item v (some (vs, rest)) = some (v ∷ vs, rest)

abbrev item_then :
    (List ℕ → Option (List (List ℕ) × List ℕ))
    → Option (List ℕ × List ℕ)
    → Option (List (List ℕ) × List ℕ)
item_then more none = none
item_then more (some (v, rest)) = elim (strip (codes ", ") rest) [
  | none ↦ some (v ∷ [], rest)
  | some u ↦ prepend_item v (more u)
]

abbrev literal_of : Option (List ℕ) → Option (List ℕ × List ℕ)
literal_of none = none
literal_of (some s) = read_literal false s

-- Literals with commas between them, at most the given number.
pub read_items : ℕ → List ℕ → Option (List (List ℕ) × List ℕ)
read_items zero t = none
read_items (suc n) t = item_then (read_items n) (literal_of (strip (codes "'") t))

read_quoted :
    (id rest : List ℕ)
    → StartsPlain rest
    → literal_of (strip (codes "'") (quoted id ++ rest)) ≡ some (id, rest)
unfolding quoted strip
read_quoted id rest h =
    rw (append_assoc (escape_sq id) (quote ∷ []) rest) (read_escape_sq id rest h)

-- What may stand behind a list of literals.
pub record EndsList (rest : List ℕ) : Type 0 where
  pub plain : StartsPlain rest
  pub no_comma : strip (codes ", ") rest ≡ none

read_items-join_strings :
    (id : List ℕ) (ids : List (List ℕ)) (rest : List ℕ)
    → EndsList rest
    → read_items (suc (length ids)) (join_strings (map quoted (id ∷ ids)) (codes ", ") ++ rest)
      ≡ some (id ∷ ids, rest)
unfolding read_items join_strings strip
read_items-join_strings id [] rest h =
    rw (append-nil (quoted id), read_quoted id rest h.plain, h.no_comma) refl
read_items-join_strings id (id' ∷ ids) rest h =
    let tail = join_more (codes ", ") (map quoted (id' ∷ ids)) ++ rest in
    rw
      (
        append_assoc (quoted id) (join_more (codes ", ") (map quoted (id' ∷ ids))) rest,
        read_quoted id tail refl,
      )
      (ap (prepend_item id) (read_items-join_strings id' ids rest h))

-- The ids that a filter `article_id = …` or `article_id IN (…)` names.
pub read_filter : ℕ → List ℕ → Option (List (List ℕ) × List ℕ)
read_filter n t = elim (strip (codes "article_id = ") t) [
  | some u ↦ read_items 1 u
  | none ↦ elim (strip (codes "article_id IN (") t) [ some u ↦ read_items n u | none ↦ none ]
]

-- What stands behind the literals of a filter.
abbrev pub ending : List (List ℕ) → List ℕ
ending [] = codes ")"
ending (id ∷ []) = []
ending (id ∷ id' ∷ ids) = codes ")"

-- `buildIDFilter` of one or more ids is a filter that names exactly these ids, in order, whatever
-- characters they hold: SQL reads them back out of the text, and nothing else is behind them but the
-- closing bracket of a list.
pub read_filter-build_id_filter :
    (id : List ℕ) (ids : List (List ℕ))
    → read_filter (length (id ∷ ids)) (build_id_filter (id ∷ ids))
      ≡ some (id ∷ ids, ending (id ∷ ids))
unfolding read_filter build_id_filter strip
read_filter-build_id_filter id [] =
    let alone = append-nil (quoted id ++ []) ∙ append-nil (quoted id) in
    ap (read_items 1) (sym alone)
    ∙ unfold join_strings in
      read_items-join_strings id [] [] (record { plain = tt; no_comma = refl })
read_filter-build_id_filter id (id' ∷ ids) =
    read_items-join_strings id (id' ∷ ids) (codes ")") (record { plain = refl; no_comma = refl })
