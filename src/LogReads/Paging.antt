-- ===== src/LogReads/Paging.antt =====
-- The pages of the logs.
use rss_lance.Base.{
  keep_if, subst, ◌=str◌, zero, suc, All, take, drop, ℕ, ◌+◌, ◌-◌, min, String, List, [], ◌∷◌, ◌++◌,
  Bool, true, false, ◌&&◌, ◌||◌, ◌≡◌, refl, ap, ◌∙◌, arith, leb, if◌then◌else◌, length, length-take,
  length-drop, length-append, Bool-cases, inl, inr,
}
use rss_lance.Types.{LogEntry}
use rss_lance.Offline.Sorting.{length-sort_by, IsSorted, sort_by-IsSorted}
use rss_lance.Writer.{Lance}
use rss_lance.LogBuffer.{LogBuffer, flush}
use rss_lance.LogPath.{LogPath, Messages, flush_logs_3_tier}
use rss_lance.Store.{Query, gives_rows}
use rss_lance.LogPath.Trim.{later_first}
use rss_lance.LogPath.Trim.Newest.{later_first-IsOrder, drop-IsSorted}
use rss_lance.Offline.Logs.{matches_filter}
use rss_lance.LogReads.{
  in_range, LogAnswer, log_page, negative_limit, no_page, panics, wraps, LogQuery, asks,
  cached_entries, get_logs, limit_of, newest_first, has_source, found, sources, merge_page,
  read_logs,
}

abbrev pub rows_of : LogAnswer → List LogEntry
rows_of (log_page rows total) = rows
rows_of no_page = []
rows_of panics = []

-- The entries stand with the newest first, those without a time last.
abbrev pub NewestFirst : List LogEntry → Type 0
NewestFirst = IsSorted later_first later_first-IsOrder

All-some : (P : LogEntry → Type 0) (n : ℕ) (xs : List LogEntry) → All P xs → All P (take n xs)
All-some P zero xs h = tt
All-some P (suc n) [] h = tt
All-some P (suc n) (x ∷ xs) h = (h.0, All-some P n xs h.1)

take-NewestFirst : (n : ℕ) (xs : List LogEntry) → NewestFirst xs → NewestFirst (take n xs)
take-NewestFirst zero xs h = tt
take-NewestFirst (suc n) [] h = tt
take-NewestFirst (suc n) (x ∷ xs) h = (All-some _ n xs h.0, take-NewestFirst n xs h.1)

page-NewestFirst :
    (limit offset : ℕ) (xs : List LogEntry)
    → NewestFirst (take limit (drop offset (newest_first xs)))
page-NewestFirst limit offset xs = take-NewestFirst limit (drop offset (newest_first xs)) (
    drop-IsSorted later_first later_first-IsOrder offset (newest_first xs)
      (sort_by-IsSorted later_first later_first-IsOrder xs))

length-page :
    (limit offset : ℕ) (xs : List LogEntry)
    → length (take limit (drop offset xs)) ≡ min limit (length xs - offset)
length-page limit offset xs =
    length-take limit (drop offset xs) ∙ ap (min limit) (length-drop offset xs)

length-newest_first : (xs : List LogEntry) → length (newest_first xs) ≡ length xs
length-newest_first xs = length-sort_by _ xs

-- The rows and the total of a page that may lie behind the end.
paged :
    (limit offset total : ℕ) (xs : List LogEntry)
    → let m = newest_first xs in
      let r : LogAnswer =
        (if leb (length m) offset
          then log_page [] total
          else log_page (take limit (drop offset m)) total) in
      (r ≡ log_page (rows_of r) total)
      × (length (rows_of r) ≡ min limit (length m - offset))
      × NewestFirst (rows_of r)
paged limit offset total xs = elim (Bool-cases (leb (length (newest_first xs)) offset)) [
  | inl behind ↦ rw behind (refl, ground arith, tt)
  | inr e ↦
      rw e (refl, length-page limit offset (newest_first xs), page-NewestFirst limit offset xs)
]

page_arith :
    (limit offset n c fetched merged : ℕ)
    → fetched ≡ min (offset + limit) n
    → merged ≡ fetched + c
    → min limit (merged - offset) ≡ min limit (n + c - offset)
page_arith limit offset n c fetched merged h g = omega arith

-- A page of the merged list, of which only a part was fetched from Lance, has as many rows as a page of
-- the whole list.
merged_page :
    (opts : LogQuery) (rows cached : List LogEntry) (n : ℕ)
    → wraps opts ≡ false
    → length rows ≡ min (opts.offset + limit_of opts) n
    → let r = merge_page opts rows cached n in
      (r ≡ log_page (rows_of r) (n + length cached))
      × (length (rows_of r) ≡ min (limit_of opts) (n + length cached - opts.offset))
      × NewestFirst (rows_of r)
unfolding merge_page
merged_page opts rows cached n small h =
    let p = paged (limit_of opts) opts.offset (n + length cached) (rows ++ cached) in
    rw small (
      p.0,
      p.1
          ∙ page_arith (limit_of opts) opts.offset n (length cached) (length rows) _ h
              (length-newest_first (rows ++ cached) ∙ length-append rows cached),
      p.2,
    )

-- The query of the rows to merge, where its limit has not wrapped.
pub as_asked :
    (opts : LogQuery) (q : Query)
    → wraps opts ≡ false
    → (if wraps opts then negative_limit q else q) ≡ q
as_asked opts q small = rw small refl

plus_zero : (n : ℕ) → n ≡ n + 0
plus_zero n = omega arith

-- What a request asks for: the level and the category, where they are given, and the time.
abbrev pub meets_all : LogQuery → LogEntry → Bool
meets_all opts e =
    (if opts.level =str "" then true else e.level =str opts.level)
    && (if opts.category =str "" then true else e.category =str opts.category)
    && in_range opts e

matches-meets_all :
    (opts : LogQuery) (e : LogEntry)
    → (matches_filter opts.level opts.category e && in_range opts e) ≡ meets_all opts e
unfolding matches_filter
matches-meets_all opts e = ground arith

keep_if-same :
    (p q : LogEntry → Bool)
    → ((e : LogEntry) → p e ≡ q e)
    → (es : List LogEntry) → keep_if p es ≡ keep_if q es
keep_if-same p q h [] = refl
keep_if-same p q h (e ∷ es) = ground (arith, h e, keep_if-same p q h es)

both_false : (b c : Bool) → (b || c) ≡ false → (b ≡ false) × (c ≡ false)
both_false true c h = cc
both_false false c h = (refl, h)

module _ (api_logs fetcher_logs : List LogEntry) (api_exists fetcher_exists : Bool)
    (opts : LogQuery) where
  abbrev has : Bool
  has = has_source api_logs fetcher_logs api_exists fetcher_exists opts

  abbrev matching : List LogEntry
  matching = found api_logs fetcher_logs api_exists fetcher_exists opts

  -- The answer where both queries of Lance succeed.
  abbrev pub answer : List LogEntry → LogAnswer
  answer cached =
      read_logs api_logs fetcher_logs api_exists fetcher_exists true gives_rows opts cached

  no_source : has ≡ false → matching ≡ []
  unfolding found sources
  no_source h =
      let parts =
        both_false (asks "api" opts && api_exists) (asks "fetcher" opts && fetcher_exists) h in
      rw (parts.0, parts.1)

  -- The rows of the log tables that the request asks for.
  abbrev pub asked_for : List LogEntry
  asked_for =
      keep_if (meets_all opts) (sources api_logs fetcher_logs api_exists fetcher_exists opts)

  found_lem : matching ≡ asked_for
  unfolding found
  found_lem = keep_if-same _ (meets_all opts) (matches-meets_all opts) _

  abbrev IsPageOf : List LogEntry → List LogEntry → LogAnswer → Type 0
  IsPageOf from_tables cached r =
      (r ≡ log_page (rows_of r) (length from_tables + length cached))
      × (length (rows_of r)
          ≡ min (limit_of opts) (length from_tables + length cached - opts.offset))
      × NewestFirst (rows_of r)

  abbrev pub IsPage : List LogEntry → LogAnswer → Type 0
  IsPage = IsPageOf asked_for

  from_cache :
      (cached : List LogEntry)
      → wraps opts ≡ false
      → has ≡ false
      → IsPageOf matching cached (answer cached)
  unfolding read_logs
  from_cache [] small h = rw (h, no_source h) (refl, ground arith, tt)
  from_cache (c ∷ cs) small h =
      rw (h, no_source h) (merged_page opts [] (c ∷ cs) 0 small (omega arith))

  from_lance :
      (cached : List LogEntry)
      → wraps opts ≡ false
      → has ≡ true
      → IsPageOf matching cached (answer cached)
  unfolding read_logs
  from_lance [] small h = rw h (
    ap (λ n. log_page (take (limit_of opts) (drop opts.offset (newest_first matching))) n)
        (plus_zero (length matching)),
    length-page (limit_of opts) opts.offset (newest_first matching)
        ∙ ap (λ n. min (limit_of opts) (n - opts.offset))
            (length-newest_first matching ∙ plus_zero (length matching)),
    page-NewestFirst (limit_of opts) opts.offset matching,
  )
  from_lance (c ∷ cs) small h =
      rw (h, as_asked opts gives_rows small)
        (merged_page opts (take (opts.offset + limit_of opts) (newest_first matching)) (c ∷ cs)
          (length matching) small
          (length-take _ _ ∙ ap (min (opts.offset + limit_of opts)) (length-newest_first matching)))

  read_logs-IsPage : (cached : List LogEntry) → wraps opts ≡ false → IsPage cached (answer cached)
  read_logs-IsPage cached small =
      subst (λ l. IsPageOf l cached (answer cached)) found_lem
        (elim (Bool-cases has) [
          | inl h ↦ from_lance cached small h
          | inr h ↦ from_cache cached small h
        ])

module _ {lance : Lance} (duck : ℕ → Bool) (now : ℕ) (uuid : ℕ → String) (messages : Messages) where
  pub get_logs-IsPage :
      (fetcher_logs : lance.Db → List LogEntry) (fetcher_exists : Bool) (opts : LogQuery)
      (lb : LogBuffer) (p : LogPath lance)
      → wraps opts ≡ false
      → let p' = (flush (flush_logs_3_tier duck now uuid messages) lb p).2 in
        IsPage
          (lance.logs p'.db)
          (fetcher_logs p'.db)
          p'.table_exists
          fetcher_exists
          opts
          (cached_entries duck opts p'.off_cache).0
          (get_logs fetcher_logs fetcher_exists duck now uuid messages true gives_rows opts lb p).0
  unfolding get_logs
  get_logs-IsPage fetcher_logs fetcher_exists opts lb p small =
      let p' = (flush (flush_logs_3_tier duck now uuid messages) lb p).2 in
      read_logs-IsPage (lance.logs p'.db) (fetcher_logs p'.db) p'.table_exists fetcher_exists opts
        (cached_entries duck opts p'.off_cache).0 small
