-- ===== src/Embedded/Commute.antt =====
-- The image of a table under a function: filters, sorts, pages and scans of it.
use rss_lance.Base.{
  ℕ, zero, suc, List, [], ◌∷◌, Bool, Option, some, ◌≡◌, refl, ap, arith, keep_if, map, take, drop,
}
use rss_lance.Embedded.Rows.{scan_all}

module _ {A B : Type 0} (f : A → B) where
  pub take-map : (n : ℕ) (xs : List A) → take n (map f xs) ≡ map f (take n xs)
  take-map zero xs = refl
  take-map (suc n) [] = refl
  take-map (suc n) (x ∷ xs) = ap (λ t. f x ∷ t) (take-map n xs)

  pub drop-map : (n : ℕ) (xs : List A) → drop n (map f xs) ≡ map f (drop n xs)
  drop-map zero xs = refl
  drop-map (suc n) [] = refl
  drop-map (suc n) (x ∷ xs) = drop-map n xs

  pub keep_if-map :
      (q : B → Bool) (p : A → Bool)
      → ((a : A) → q (f a) ≡ p a)
      → (xs : List A) → keep_if q (map f xs) ≡ map f (keep_if p xs)
  keep_if-map q p h [] = refl
  keep_if-map q p h (x ∷ xs) = ground (arith, keep_if-map q p h xs, h x)

pub scan_all-map :
    {A B C : Type 0} (f : A → B) (g : A → C) (scan : B → Option C)
    → ((a : A) → scan (f a) ≡ some (g a))
    → (xs : List A) → scan_all scan (map f xs) ≡ some (map g xs)
unfolding scan_all
scan_all-map f g scan h [] = refl
scan_all-map f g scan h (x ∷ xs) = rw (h x, scan_all-map f g scan h xs) refl

pub map-identity : {A : Type 0} (xs : List A) → map (λ x. x) xs ≡ xs
map-identity [] = refl
map-identity (x ∷ xs) = ap (λ t. x ∷ t) (map-identity xs)
