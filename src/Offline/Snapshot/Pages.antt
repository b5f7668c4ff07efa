-- ===== src/Offline/Snapshot/Pages.antt =====
-- The pages of a snapshot make up the whole table.
use rss_lance.Base.{
  ℕ, zero, suc, ◌+◌, ◌<◌, ◌≤◌, List, [], ◌∷◌, ◌++◌, Bool, true, false, some, ◌≡◌, refl, sym, ap,
  ◌∙◌, arith, ltb, keep_if, keep_if-append, length, length-take, length-drop, take, drop,
  take-append-drop, append-nil, Bool-cases, inl, inr,
}
use rss_lance.Types.{Article}
use rss_lance.Offline.Snapshot.{Source, recent, next_page, collect}

module _ {A : Type 0} where
  take_short : (n : ℕ) (xs : List A) → length (take n xs) < n → take n xs ≡ xs
  take_short zero xs h = absurd (omega (arith, h))
  take_short (suc n) [] h = refl
  take_short (suc n) (x ∷ xs) h = ap (λ ys. x ∷ ys) (take_short n xs (omega (arith, h)))

  drop_nil : (n : ℕ) → drop {A = A} n [] ≡ []
  drop_nil zero = refl
  drop_nil (suc n) = refl

  drop-drop : (m n : ℕ) (xs : List A) → drop m (drop n xs) ≡ drop (n + m) xs
  drop-drop m zero xs = ap (λ k. drop k xs) (omega arith)
  drop-drop m (suc n) [] = drop_nil m ∙ sym (drop_nil (suc n + m))
  drop-drop m (suc n) (x ∷ xs) =
      let same : suc (n + m) ≡ suc n + m = omega arith in
      drop-drop m n xs ∙ ap (λ k. drop k (x ∷ xs)) same

less_than : (a b : ℕ) → ltb a b ≡ true → a < b
less_than a b h = ground (arith, h)

at_least : (a b : ℕ) → ltb a b ≡ false → b ≤ a
at_least a b h = ground (arith, h)

-- A full page, and what stands behind it.
full_page :
    (p : Article → Bool) (size offset : ℕ) (rows : List Article)
    → keep_if p (take size (drop offset rows)) ++ keep_if p (drop (offset + size) rows)
      ≡ keep_if p (drop offset rows)
full_page p size offset rows =
    let xs = drop offset rows in
    ap (λ ys. keep_if p (take size xs) ++ keep_if p ys) (sym (drop-drop size offset rows))
    ∙ sym (keep_if-append p (take size xs) (drop size xs))
    ∙ ap (keep_if p) (take-append-drop size xs)

module _ (source : Source) (cutoff size : ℕ) (rows : List Article) where
  collect_from :
      ((offset : ℕ) → source.articles size offset ≡ some (take size (drop offset rows)))
      → 0 < size
      → (fuel offset : ℕ) → length (drop offset rows) < fuel
      → collect source fuel cutoff size offset ≡ some (keep_if (recent cutoff) (drop offset rows))
  unfolding collect next_page
  collect_from reads positive zero offset h = absurd (omega (arith, h))
  collect_from reads positive (suc fuel) offset h =
      let xs = drop offset rows in
      rw (reads offset) (elim (Bool-cases (ltb (length (take size xs)) size)) [
        | inl e ↦ rw e (
            ap some (
              append-nil (keep_if (recent cutoff) (take size xs))
              ∙ ap (keep_if (recent cutoff)) (take_short size xs (less_than _ _ e))))
        | inr e ↦
            (let smaller : length (drop (offset + size) rows) < fuel = omega (
              arith,
              at_least _ _ e,
              length-take size xs,
              length-drop offset rows,
              length-drop (offset + size) rows,
              h,
              positive,
            ) in
              let ih = collect_from reads positive fuel (offset + size) smaller in
              rw (e, ih) (ap some (full_page (recent cutoff) size offset rows)))
      ])

  -- Where the store answers each page with the rows of one list that the limit and the offset name, the
  -- loop of the snapshot ends and collects exactly the recent articles of that list, each once and
  -- in its order, whatever the size of the pages: with more fuel than there are rows it returns them.
  pub collect_lem :
      ((offset : ℕ) → source.articles size offset ≡ some (take size (drop offset rows)))
      → 0 < size
      → (fuel : ℕ) → length rows < fuel
      → collect source fuel cutoff size 0 ≡ some (keep_if (recent cutoff) rows)
  collect_lem reads positive fuel enough = collect_from reads positive fuel 0 enough
