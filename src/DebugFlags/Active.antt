-- ===== src/DebugFlags/Active.antt =====
-- Which debug categories a command line turns on.
use rss_lance.Base.{
  String, List, [], ◌∷◌, Bool, true, false, not, ◌≡◌, refl, ap, ◌∙◌, Bool-cases, inl, inr, arith,
  eq_iff, ◌||◌, ◌&&◌, ◌=str◌, if◌then◌else◌, map,
}
use rss_lance.Offline.{contains}
use rss_lance.DebugFlags.{
  Enabled, all_categories, turn_on_each, enable, is_known, parse_tokens, parse,
}

enable_one :
    (c d : String) (on : Enabled)
    → enable (c ∷ []) on d
      ≡ (on d || (if c =str "all" then contains d all_categories else c =str d))
unfolding enable turn_on_each contains
enable_one c d on = ground arith

-- The categories that there are.
abbrev pub is_category : String → Bool
is_category d = d =str "client" || d =str "duckdb" || d =str "batch" || d =str "lance"

-- The word `t` asks for the category `d`: by its name, or as one of all.
abbrev pub asks_for : String → String → Bool
asks_for d t = is_category d && (t =str d || t =str "all")

all-is_category : (d : String) → contains d all_categories ≡ is_category d
unfolding contains
all-is_category d = ground (
  arith,
  eq_iff "client" d,
  eq_iff "duckdb" d,
  eq_iff "batch" d,
  eq_iff "lance" d,
  eq_iff d "client",
  eq_iff d "duckdb",
  eq_iff d "batch",
  eq_iff d "lance",
)

known-is_category : (t : String) → (t =str "all") ≡ false → is_known t ≡ is_category t
unfolding is_known
known-is_category t h = ground (arith, h)

known_all : is_known "all" ≡ true
unfolding is_known
known_all = refl

-- What a known word turns on.
known-asks_for :
    (d t : String)
    → (is_known t && (if t =str "all" then contains d all_categories else t =str d)) ≡ asks_for d t
known-asks_for d t = elim (Bool-cases (t =str "all")) [
  | inl e ↦ rw (e, ap is_known ((eq_iff t "all").0 e), known_all, all-is_category d) (ground arith)
  | inr e ↦ elim (Bool-cases (t =str d)) [
    | inl same ↦
        rw (e, same, known-is_category t e, ap is_category ((eq_iff t d).0 same)) (ground arith)
    | inr other ↦ rw (e, other) (ground arith)
  ]
]

abbrev pub any_asks : String → List String → Bool
any_asks d [] = false
any_asks d (t ∷ ts) = asks_for d t || any_asks d ts

not_known : is_known "" ≡ false
unfolding is_known
not_known = refl

or-false : (b : Bool) → b ≡ (b || false)
or-false b = ground arith

-- The step of the loop, for a word that is trimmed.
token_step :
    (t d : String) (on : Enabled)
    → (if t =str "" then on else if is_known t then enable (t ∷ []) on else on) d
      ≡ (on d || asks_for d t)
token_step t d on = elim (Bool-cases (t =str "")) [
  | inl e ↦ rw (e) (
      or-false (on d)
      ∙ ap (λ b. on d || b)
          (rw (ap is_known ((eq_iff t "").0 e), not_known) refl ∙ known-asks_for d t))
  | inr e ↦ elim (Bool-cases (is_known t)) [
    | inl k ↦ rw (e, k) (enable_one t d on ∙ ap (λ b. on d || b) (rw k refl ∙ known-asks_for d t))
    | inr k ↦ rw (e, k) (or-false (on d) ∙ ap (λ b. on d || b) (rw k refl ∙ known-asks_for d t))
  ]
]

or_assoc : (a b c : Bool) → ((a || b) || c) ≡ (a || (b || c))
or_assoc a b c = ground arith

parse_tokens_lem :
    (trim_lower : String → String) (toks : List String) (on : Enabled) (d : String)
    → parse_tokens trim_lower toks on d ≡ (on d || any_asks d (map trim_lower toks))
unfolding parse_tokens
parse_tokens_lem trim_lower [] on d = ground arith
parse_tokens_lem trim_lower (tok ∷ toks) on d =
    let t = trim_lower tok in
    let next : Enabled = if t =str "" then on else if is_known t then enable (t ∷ []) on else on in
    parse_tokens_lem trim_lower toks next d
    ∙ rw (token_step t d on) (or_assoc (on d) (asks_for d t) (any_asks d (map trim_lower toks)))

-- `Parse` turns on exactly the categories that were on before or that some word between the commas asks
-- for: its own name, or "all" for the four categories. An unknown word turns on nothing.
pub parse_lem :
    (split_commas : String → List String) (trim_lower : String → String) (s d : String)
    (on : Enabled)
    → parse split_commas trim_lower s on d
      ≡ (on d || (not (s =str "") && any_asks d (map trim_lower (split_commas s))))
unfolding parse
parse_lem split_commas trim_lower s d on =
    ground (arith, parse_tokens_lem trim_lower (split_commas s) on d)
