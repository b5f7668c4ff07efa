-- ===== src/LogReads/Matching.antt =====
-- What the rows are that the logs show.
use rss_lance.Base.{
  ℕ, String, List, [], ◌∷◌, ◌++◌, Bool, true, false, not, ◌&&◌, Option, none, some, ◌≡◌, refl, ◌⊎◌,
  ◌=str◌, eq_iff, arith, ◌||◌, if◌then◌else◌, keep_if, map, take, drop, All, Bool-cases, inl, inr,
  zero, suc, leb, length, ◌+◌,
}
use rss_lance.Types.{LogEntry}
use rss_lance.LogBuffer.{LogBuffer, flush}
use rss_lance.LogPath.{LogPath, Messages, flush_logs_3_tier}
use rss_lance.Offline.{OfflineCache, sort_by, after}
use rss_lance.Offline.Logs.{matches_filter, as_api, query_cached_logs}
use rss_lance.Offline.Sorting.{All-sort_by}
use rss_lance.Writer.{Lance}
use rss_lance.Store.{Query, gives_rows, gives_nothing, gives_error}
use rss_lance.LogReads.{
  LogAnswer, log_page, wraps, negative_limit, after_rows, LogQuery, limit_of, in_range, asks,
  newest_first, has_source, has_rows, cached_entries, merge_page, sources, found, read_logs,
  get_logs,
}
use rss_lance.LogReads.Paging.{rows_of}

-- An entry has the level and the category that are asked for, where they are.
abbrev pub Asked : LogQuery → LogEntry → Type 0
Asked opts e =
    ((opts.level ≡ "") ⊎ (e.level ≡ opts.level))
    × ((opts.category ≡ "") ⊎ (e.category ≡ opts.category))

asked_part : (t u : String) → (t =str "" || u =str t) ≡ true → (t ≡ "") ⊎ (u ≡ t)
asked_part t u h = elim (Bool-cases (t =str "")) [
  | inl e ↦ inl ((eq_iff t "").0 e)
  | inr e ↦ inr ((eq_iff u t).0 (ground (arith, e, h)))
]

and_left : (b c : Bool) → (b && c) ≡ true → b ≡ true
and_left true c h = refl
and_left false c h = h

and_right : (b c : Bool) → (b && c) ≡ true → c ≡ true
and_right true c h = h
and_right false c h = cc

matches-Asked :
    (opts : LogQuery) (e : LogEntry)
    → matches_filter opts.level opts.category e ≡ true
    → Asked opts e
unfolding matches_filter
matches-Asked opts e h = (
  asked_part opts.level e.level (and_left _ _ h),
  asked_part opts.category e.category (and_right _ _ h),
)

module _ (P : LogEntry → Type 0) where
  All-append : (xs ys : List LogEntry) → All P xs → All P ys → All P (xs ++ ys)
  All-append [] ys g h = h
  All-append (x ∷ xs) ys g h = (g.0, All-append xs ys g.1 h)

  All-take : (n : ℕ) (xs : List LogEntry) → All P xs → All P (take n xs)
  All-take zero xs h = tt
  All-take (suc n) [] h = tt
  All-take (suc n) (x ∷ xs) h = (h.0, All-take n xs h.1)

  All-drop : (n : ℕ) (xs : List LogEntry) → All P xs → All P (drop n xs)
  All-drop zero xs h = h
  All-drop (suc n) [] h = tt
  All-drop (suc n) (x ∷ xs) h = All-drop n xs h.1

  All-keep_if :
      (p : LogEntry → Bool) (xs : List LogEntry)
      → ((e : LogEntry) → p e ≡ true → P e)
      → All P (keep_if p xs)
  All-keep_if p [] f = tt
  All-keep_if p (x ∷ xs) f = elim (Bool-cases (p x)) [
    | inl e ↦ rw e (f x e, All-keep_if p xs f)
    | inr e ↦ rw e (All-keep_if p xs f)
  ]

  All-image :
      (g : LogEntry → LogEntry) (xs : List LogEntry) → All (λ e. P (g e)) xs → All P (map g xs)
  All-image g [] h = tt
  All-image g (x ∷ xs) h = (h.0, All-image g xs h.1)

  -- The rows of an answer have the property.
  record Good (r : LogAnswer) : Type 0 where
    rows : All P (rows_of r)

  Good-merge_page :
      (opts : LogQuery) (xs ys : List LogEntry) (n : ℕ)
      → All P xs
      → All P ys
      → Good (merge_page opts xs ys n)
  unfolding merge_page
  Good-merge_page opts xs ys n g h =
      let merged = newest_first (xs ++ ys) in
      let in_order =
        All-sort_by (λ a b. after a.timestamp b.timestamp) P (xs ++ ys) (All-append xs ys g h) in
      elim (Bool-cases (leb (length merged) opts.offset)) [
        | inl e ↦ rw e (record { rows = tt })
        | inr e ↦ rw e (elim (Bool-cases (wraps opts)) [
          | inl w ↦ rw w (record { rows = tt })
          | inr w ↦ rw w (record {
            rows =
                All-take (limit_of opts) (drop opts.offset merged)
                  (All-drop opts.offset merged in_order);
          })
        ])
      ]

found-Asked :
    (api_logs fetcher_logs : List LogEntry) (api_exists fetcher_exists : Bool) (opts : LogQuery)
    → All (Asked opts) (found api_logs fetcher_logs api_exists fetcher_exists opts)
unfolding found
found-Asked api_logs fetcher_logs api_exists fetcher_exists opts =
    All-keep_if (Asked opts) (λ e. matches_filter opts.level opts.category e && in_range opts e)
      (sources api_logs fetcher_logs api_exists fetcher_exists opts)
      (λ e h.
        matches-Asked opts e
          (and_left (matches_filter opts.level opts.category e) (in_range opts e) h))

query_cached_logs-Asked :
    (opts : LogQuery) (oc : OfflineCache)
    → All (Asked opts) (query_cached_logs opts.level opts.category oc)
unfolding query_cached_logs
query_cached_logs-Asked opts oc =
    let rows = keep_if (matches_filter opts.level opts.category) oc.cached_logs in
    let kept =
      All-keep_if (Asked opts) (matches_filter opts.level opts.category) oc.cached_logs
        (matches-Asked opts) in
    All-image (Asked opts) as_api (sort_by (λ a b. after a.timestamp b.timestamp) rows)
      (All-sort_by (λ a b. after a.timestamp b.timestamp) (λ e. Asked opts (as_api e)) rows kept)

cached-Asked :
    (duck : ℕ → Bool) (opts : LogQuery) (off : Option OfflineCache)
    → All (Asked opts) (cached_entries duck opts off).0
unfolding cached_entries
cached-Asked duck opts none = tt
cached-Asked duck opts (some oc) = elim (Bool-cases (asks "api" opts)) [
  | inl e ↦ (elim (Bool-cases (duck oc.calls)) [
    | inl ran ↦ rw (e, ran) (query_cached_logs-Asked opts oc)
    | inr ran ↦ rw (e, ran) tt
  ])
  | inr e ↦ rw e tt
]

module _ (api_logs fetcher_logs : List LogEntry) (api_exists fetcher_exists up_count : Bool)
    (opts : LogQuery) where
  newest-Asked :
      All (Asked opts) (newest_first (found api_logs fetcher_logs api_exists fetcher_exists opts))
  newest-Asked =
      All-sort_by (λ a b. after a.timestamp b.timestamp) (Asked opts)
        (found api_logs fetcher_logs api_exists fetcher_exists opts)
        (found-Asked api_logs fetcher_logs api_exists fetcher_exists opts)

  Good-after_rows :
      (q : Query) (rows : List LogEntry) (answer : List LogEntry → LogAnswer)
      → All (Asked opts) rows
      → ((es : List LogEntry) → All (Asked opts) es → Good (Asked opts) (answer es))
      → Good (Asked opts) (after_rows q rows answer)
  Good-after_rows gives_rows rows answer h then_good = then_good rows h
  Good-after_rows gives_nothing rows answer h then_good = then_good [] tt
  Good-after_rows gives_error rows answer h then_good = record { rows = tt }

  Good-read_logs :
      (q : Query) (cached : List LogEntry)
      → All (Asked opts) cached
      → Good
          (Asked opts)
          (read_logs api_logs fetcher_logs api_exists fetcher_exists up_count q opts cached)
  unfolding read_logs
  Good-read_logs q cached h =
      let rows = newest_first (found api_logs fetcher_logs api_exists fetcher_exists opts) in
      let total =
        if up_count
        then length (found api_logs fetcher_logs api_exists fetcher_exists opts)
        else 0 in
      go (has_source api_logs fetcher_logs api_exists fetcher_exists opts) (has_rows cached)
        (Good-merge_page (Asked opts) opts [] cached 0 tt h)
        (Good-after_rows (if wraps opts then negative_limit q else q)
          (take (opts.offset + limit_of opts) rows) (λ es. merge_page opts es cached total)
          (All-take (Asked opts) (opts.offset + limit_of opts) rows newest-Asked)
          (λ es g. Good-merge_page (Asked opts) opts es cached total g h))
        (Good-after_rows q (take (limit_of opts) (drop opts.offset rows)) (λ es. log_page es total)
          (All-take (Asked opts) (limit_of opts) (drop opts.offset rows)
            (All-drop (Asked opts) opts.offset rows newest-Asked))
          (λ es g. record { rows = g }))
    where
      go :
          (has some_cached : Bool) {x y z : LogAnswer}
          → Good (Asked opts) x
          → Good (Asked opts) y
          → Good (Asked opts) z
          → Good (Asked opts) (
              if not has
              then (if some_cached then x else log_page [] 0)
              else if some_cached
              then y
              else z)
      go false true p q r = p
      go false false p q r = record { rows = tt }
      go true true p q r = q
      go true false p q r = r

module _ {lance : Lance} (duck : ℕ → Bool) (now : ℕ) (uuid : ℕ → String) (messages : Messages) where
  -- Every row that `GetLogs` shows has the level that is asked for, where one is, and likewise the
  -- category, whichever of its queries fail or are rejected and wherever the row comes from: the log tables, or the local cache.
  pub get_logs-Asked :
      (fetcher_logs : lance.Db → List LogEntry) (fetcher_exists up_count : Bool) (q : Query)
      (opts : LogQuery) (lb : LogBuffer) (p : LogPath lance)
      → All (Asked opts) (
          rows_of
            (get_logs fetcher_logs fetcher_exists duck now uuid messages up_count q opts lb p).0)
  unfolding get_logs
  get_logs-Asked fetcher_logs fetcher_exists up_count q opts lb p =
      let p' = (flush (flush_logs_3_tier duck now uuid messages) lb p).2 in
      (Good-read_logs (lance.logs p'.db) (fetcher_logs p'.db) p'.table_exists fetcher_exists
        up_count opts q (cached_entries duck opts p'.off_cache).0
        (cached-Asked duck opts p'.off_cache)).rows
