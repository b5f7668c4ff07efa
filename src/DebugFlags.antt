-- ===== src/DebugFlags.antt =====
-- The debug categories, server/debug/debug.go. `trim_lower` stands for strings.TrimSpace of
-- strings.ToLower, and `split_commas` for strings.Split at commas: they are Go's library.
pub mod Active
use rss_lance.Base.{
  String, List, [], ◌∷◌, Bool, true, false, Option, none, some, ◌||◌, ◌=str◌, if◌then◌else◌,
  keep_if, map,
}
use rss_lance.Offline.{contains}

-- `AllCategories`.
abbrev pub all_categories : List String
all_categories = "client" ∷ "duckdb" ∷ "batch" ∷ "lance" ∷ []

-- The map `enabled`: a category is on, or is not a key.
abbrev pub Enabled : Type 0
Enabled = String → Bool

abbrev pub turn_on : String → Enabled → Enabled
turn_on c on = λ d. if c =str d then true else on d

unfoldable pub turn_on_each : List String → Enabled → Enabled
turn_on_each [] on = on
turn_on_each (c ∷ cs) on = turn_on_each cs (turn_on c on)

-- `Enable`.
unfoldable pub enable : List String → Enabled → Enabled
unfolding turn_on_each
enable [] on = on
enable (c ∷ cs) on =
    enable cs (if c =str "all" then turn_on_each all_categories on else turn_on c on)

-- The cases of the switch in `Parse`.
unfoldable pub is_known : String → Bool
is_known tok =
    tok =str "client" || tok =str "duckdb" || tok =str "batch" || tok =str "lance" || tok =str "all"

-- The loop of `Parse`. The warning about an unknown word is not modelled.
unfoldable pub parse_tokens : (String → String) → List String → Enabled → Enabled
unfolding enable is_known
parse_tokens trim_lower [] on = on
parse_tokens trim_lower (tok ∷ toks) on =
    let t = trim_lower tok in
    parse_tokens trim_lower toks
      (if t =str "" then on else if is_known t then enable (t ∷ []) on else on)

-- `Parse`.
unfoldable pub parse : (String → List String) → (String → String) → String → Enabled → Enabled
unfolding parse_tokens
parse split_commas trim_lower s on =
    if s =str "" then on else parse_tokens trim_lower (split_commas s) on

-- The categories that `Summary` joins, where there is one.
unfoldable pub summary : Enabled → List String
summary on = keep_if on all_categories
