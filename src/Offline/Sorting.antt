-- ===== src/Offline/Sorting.antt =====
-- What an ORDER BY keeps of the rows.
use rss_lance.Base.{
  ℕ, suc, ◌+◌, List, [], ◌∷◌, Bool, true, false, ◌≡◌, refl, arith, if◌then◌else◌, length, All, map,
  ap, ◌∙◌, keep_if, All-map, Bool-cases, inl, inr,
}
use rss_lance.Offline.{insert_by, sort_loop, sort_by}

module _ {A : Type 0} (less : A → A → Bool) where
  length-insert_by : (x : A) (xs : List A) → length (insert_by less x xs) ≡ suc (length xs)
  unfolding insert_by
  length-insert_by x [] = refl
  length-insert_by x (y ∷ ys) = ground (arith, length-insert_by x ys)

  length-sort_loop : (out xs : List A) → length (sort_loop less out xs) ≡ length out + length xs
  unfolding sort_loop
  length-sort_loop out [] = omega arith
  length-sort_loop out (x ∷ xs) =
      omega (arith, length-sort_loop (insert_by less x out) xs, length-insert_by x out)

  pub length-sort_by : (xs : List A) → length (sort_by less xs) ≡ length xs
  unfolding sort_by
  length-sort_by xs = omega (arith, length-sort_loop [] xs)

  All-insert_by :
      (P : A → Type 0) (x : A) (xs : List A) → P x → All P xs → All P (insert_by less x xs)
  unfolding insert_by
  All-insert_by P x [] p h = (p, tt)
  All-insert_by P x (y ∷ ys) p h =
      elim (less x y) as (λ b. All P (if b then x ∷ y ∷ ys else y ∷ insert_by less x ys)) [
        | true ↦ (p, h)
        | false ↦ (h.0, All-insert_by P x ys p h.1)
      ]

  All-sort_loop :
      (P : A → Type 0) (out xs : List A) → All P out → All P xs → All P (sort_loop less out xs)
  unfolding sort_loop
  All-sort_loop P out [] g h = g
  All-sort_loop P out (x ∷ xs) g h =
      All-sort_loop P (insert_by less x out) xs (All-insert_by P x out h.0 g) h.1

  pub All-sort_by : (P : A → Type 0) (xs : List A) → All P xs → All P (sort_by less xs)
  unfolding sort_by
  All-sort_by P xs h = All-sort_loop P [] xs tt h

-- Sorting the images of rows, by an order that agrees with the one of the rows.
module _ {A B : Type 0} (f : A → B) (less' : B → B → Bool) (less : A → A → Bool)
    (same : (a b : A) → less' (f a) (f b) ≡ less a b) where
  insert_by-map :
      (x : A) (xs : List A) → insert_by less' (f x) (map f xs) ≡ map f (insert_by less x xs)
  unfolding insert_by
  insert_by-map x [] = refl
  insert_by-map x (y ∷ ys) = ground (arith, insert_by-map x ys, same x y)

  sort_loop-map :
      (out xs : List A) → sort_loop less' (map f out) (map f xs) ≡ map f (sort_loop less out xs)
  unfolding sort_loop
  sort_loop-map out [] = refl
  sort_loop-map out (x ∷ xs) =
      ap (λ o. sort_loop less' o (map f xs)) (insert_by-map x out)
      ∙ sort_loop-map (insert_by less x out) xs

  pub sort_by-map : (xs : List A) → sort_by less' (map f xs) ≡ map f (sort_by less xs)
  unfolding sort_by
  sort_by-map xs = sort_loop-map [] xs

-- An order by a Boolean test.
pub record IsOrder {A : Type 0} (less : A → A → Bool) : Type 0 where
  pub asymmetric : (x y : A) → less x y ≡ true → less y x ≡ false
  pub transitive : (x y z : A) → less x y ≡ true → less y z ≡ true → less x z ≡ true

module _ {A : Type 0} (less : A → A → Bool) (order : IsOrder less) where
  -- No item comes before one that stands in front of it.
  abbrev pub IsSorted : List A → Type 0
  IsSorted [] = Unit
  IsSorted (x ∷ xs) = All (λ y. less y x ≡ false) xs × IsSorted xs

  behind : (x y z : A) → less x y ≡ true → less z y ≡ false → less z x ≡ false
  behind x y z h g = elim (Bool-cases (less z x)) [
    | inl before ↦ absurd (ground (arith, order.transitive z x y before h))
    | inr not_before ↦ not_before
  ]

  insert_by-IsSorted : (x : A) (xs : List A) → IsSorted xs → IsSorted (insert_by less x xs)
  unfolding insert_by
  insert_by-IsSorted x [] h = (tt, tt)
  insert_by-IsSorted x (y ∷ ys) h = elim (Bool-cases (less x y)) [
    | inl before ↦
        rw before ((order.asymmetric x y before, All-map ys (λ z. behind x y z before) h.0), h)
    | inr after ↦
        rw after
          (All-insert_by less (λ z. less z y ≡ false) x ys after h.0, insert_by-IsSorted x ys h.1)
  ]

  sort_loop-IsSorted : (out xs : List A) → IsSorted out → IsSorted (sort_loop less out xs)
  unfolding sort_loop
  sort_loop-IsSorted out [] h = h
  sort_loop-IsSorted out (x ∷ xs) h =
      sort_loop-IsSorted (insert_by less x out) xs (insert_by-IsSorted x out h)

  pub sort_by-IsSorted : (xs : List A) → IsSorted (sort_by less xs)
  unfolding sort_by
  sort_by-IsSorted xs = sort_loop-IsSorted [] xs tt

-- A sort keeps the number of items that pass a test.
module _ {A : Type 0} (less : A → A → Bool) (p : A → Bool) where
  abbrev pub count : List A → ℕ
  count xs = length (keep_if p xs)

  count-insert_by : (x : A) (xs : List A) → count (insert_by less x xs) ≡ count (x ∷ xs)
  unfolding insert_by
  count-insert_by x [] = refl
  count-insert_by x (y ∷ ys) = ground (arith, count-insert_by x ys)

  count-sort_loop : (out xs : List A) → count (sort_loop less out xs) ≡ count out + count xs
  unfolding sort_loop
  count-sort_loop out [] = omega arith
  count-sort_loop out (x ∷ xs) =
      ground (arith, count-sort_loop (insert_by less x out) xs, count-insert_by x out)

  pub count-sort_by : (xs : List A) → count (sort_by less xs) ≡ count xs
  unfolding sort_by
  count-sort_by xs = omega (arith, count-sort_loop [] xs)
