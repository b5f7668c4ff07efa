-- ===== src/Base/Assoc.antt =====
-- Go maps with string keys as association lists: a read takes the first entry of its key, and a
-- write replaces it or appends.
use Prim.Native.String.{String}
use mathlib.Core.Path.{◌≡◌, refl, subst}
use mathlib.Core.Logic.{inl, inr}
use mathlib.Core.List.{List, [], ◌∷◌}
use mathlib.Core.Option.{Option, none, some}
use native.Mathlib.Omega.{arith}
use text.Mathlib.TextEquality.{eq_iff}
use rss_lance.Base.Tests.{◌=str◌, if◌then◌else◌, Bool-cases}

abbrev pub Assoc {ℓ} : Type ℓ → Type ℓ
Assoc V = List (String × V)

-- A read of the map.
unfoldable pub lookup {ℓ} : {V : Type ℓ} → String → Assoc V → Option V
lookup key [] = none
lookup key ((other, value) ∷ rest) = if other =str key then some value else lookup key rest

-- `m[key] = value`.
unfoldable pub insert {ℓ} : {V : Type ℓ} → String → V → Assoc V → Assoc V
insert key value [] = (key, value) ∷ []
insert key value ((other, old) ∷ rest) =
    if other =str key then (key, value) ∷ rest else (other, old) ∷ insert key value rest

-- `delete(m, key)`.
unfoldable pub erase {ℓ} : {V : Type ℓ} → String → Assoc V → Assoc V
erase key [] = []
erase key ((other, old) ∷ rest) =
    let left = erase key rest in if other =str key then left else (other, old) ∷ left

module _ {ℓ} {V : Type ℓ} (written read : String) where
  pub lookup-erase :
      (m : Assoc V)
      → lookup read (erase written m) ≡ (if written =str read then none else lookup read m)
  unfolding lookup erase
  lookup-erase [] = ground arith
  lookup-erase ((other, old) ∷ rest) =
      ground
        (arith, lookup-erase rest, eq_iff other written, eq_iff other read, eq_iff written read)

  pub lookup-insert :
      (value : V) (m : Assoc V)
      → lookup read (insert written value m)
        ≡ (if written =str read then some value else lookup read m)
  unfolding insert lookup
  lookup-insert value [] = refl
  lookup-insert value ((other, old) ∷ rest) = ground (
    arith,
    lookup-insert value rest,
    eq_iff other written,
    eq_iff other read,
    eq_iff written read,
  )

module _ {ℓ} {V : Type ℓ} where
  -- Each key stands in the list once, as in a Go map.
  abbrev pub IsMap : Assoc V → Type ℓ
  IsMap [] = Unit
  IsMap ((k, v) ∷ m) = (lookup k m ≡ none) × IsMap m

  pub insert-IsMap : (k : String) (v : V) (m : Assoc V) → IsMap m → IsMap (insert k v m)
  unfolding insert lookup
  insert-IsMap k v [] h = (refl, tt)
  insert-IsMap k v ((j, w) ∷ m) h = elim (Bool-cases (j =str k)) [
    | inl same ↦ rw same (subst (λ i. lookup i m ≡ none) ((eq_iff j k).0 same) h.0, h.1)
    | inr other ↦ rw other (
      rw (lookup-insert k j v m) (ground (arith, eq_iff j k, eq_iff k j)),
      insert-IsMap k v m h.1,
    )
  ]
