-- ===== src/ServerLogger/Enabled.antt =====
-- The entries that the logger of the API server writes.
use rss_lance.Base.{
  String, [], ◌∷◌, Bool, true, false, ◌&&◌, Option, none, some, ◌≡◌, refl, sym, subst, ◌∙◌, arith,
  eq_iff, ◌=str◌, Bool-cases, inl, inr,
}
use Prim.Native.String.{◌++◌ as append}
use text.Mathlib.Text.{starts_with}
use text.Mathlib.TextPositions.{starts_with-append}
use rss_lance.Base.Assoc.{Assoc, lookup, insert, lookup-insert, IsMap}
use rss_lance.Store.{ok}
use rss_lance.ServerLogger.{ServerLogger, is_on, flags_of, reload_settings, should_log}

-- A flag is set, or not there.
abbrev pub flag_or : Option String → Option Bool → Option Bool
flag_or none b = b
flag_or (some v) b = some (is_on v)

lookup-flags_of :
    (k : String) (flags : Assoc Bool) (settings : Assoc String)
    → starts_with k "log.api." ≡ true
    → IsMap settings
    → lookup k (flags_of flags settings) ≡ flag_or (lookup k settings) (lookup k flags)
unfolding flags_of lookup
lookup-flags_of k flags [] p h = refl
lookup-flags_of k flags ((j, v) ∷ settings) p h = elim (Bool-cases (j =str k)) [
  | inl same ↦
      let e : j ≡ k = (eq_iff j k).0 same in
      let fits : starts_with j "log.api." ≡ true =
        subst (λ i. starts_with i "log.api." ≡ true) (sym e) p in
      let once : lookup k settings ≡ none = subst (λ i. lookup i settings ≡ none) e h.0 in
      rw (fits, same)
        (lookup-flags_of k (insert j (is_on v) flags) settings p h.1
          ∙ rw (once, lookup-insert j k (is_on v) flags, same) refl)
  | inr other ↦ elim (Bool-cases (starts_with j "log.api.")) [
    | inl fits ↦
        rw (fits, other)
          (lookup-flags_of k (insert j (is_on v) flags) settings p h.1
            ∙ rw (lookup-insert j k (is_on v) flags, other) refl)
    | inr unfit ↦ rw (unfit, other) (lookup-flags_of k flags settings p h.1)
  ]
]

-- A setting that reads as true; as the given value where it is missing.
abbrev pub reads_as : Bool → Option String → Bool
reads_as b none = b
reads_as b (some v) = is_on v

-- After `ReloadSettings` has read settings with each key once, the logger writes an entry of a category
-- exactly where "log.api.enabled" is missing or reads as true, and the flag of the category is there
-- and reads as true.
pub should_log-reload_settings :
    (category : String) (settings : Assoc String) (sl : ServerLogger)
    → IsMap settings
    → should_log category (reload_settings (ok settings) sl) ≡ (
        reads_as true (lookup "log.api.enabled" settings)
        && reads_as false (lookup (append "log.api." category) settings))
unfolding should_log reload_settings
should_log-reload_settings category settings sl h = ground (
  arith,
  lookup-flags_of "log.api.enabled" [] settings refl h,
  lookup-flags_of (append "log.api." category) [] settings (starts_with-append "log.api." category)
      h,
)
