-- ===== src/LogReads/Overflow.antt =====
-- Where the slice of `GetLogs` panics: the sum of offset and limit wraps to a negative number.
use rss_lance.Base.{
  ℕ, ◌+◌, String, List, [], ◌∷◌, ◌++◌, Bool, true, false, not, ◌&&◌, ◌≡◌, refl, ◌∙◌, arith, leb,
  ltb, ◌^◌, if◌then◌else◌, length, Bool-cases, inl, inr,
}
use rss_lance.Types.{LogEntry}
use rss_lance.LogBuffer.{LogBuffer, flush}
use rss_lance.LogPath.{LogPath, Messages, flush_logs_3_tier}
use rss_lance.Offline.{after}
use rss_lance.Offline.Sorting.{length-sort_by}
use rss_lance.Writer.{Lance}
use rss_lance.Store.{Query, gives_rows, gives_nothing, gives_error}
use rss_lance.LogReads.{
  LogQuery, LogAnswer, log_page, no_page, panics, wraps, limit_of, has_source, cached_entries,
  negative_limit, after_rows, merge_page, read_logs, get_logs,
}
use rss_lance.LogReads.Paging.{as_asked}

abbrev pub gives_an_error : Query → Bool
gives_an_error gives_rows = false
gives_an_error gives_nothing = false
gives_an_error gives_error = true

abbrev pub is_panic : LogAnswer → Bool
is_panic (log_page rows total) = false
is_panic no_page = false
is_panic panics = true

merge_page_lem :
    (opts : LogQuery) (es cached : List LogEntry) (total : ℕ)
    → is_panic (merge_page opts es cached total)
      ≡ (wraps opts && ltb opts.offset (length (es ++ cached)))
unfolding merge_page
merge_page_lem opts es cached total = elim (Bool-cases (wraps opts)) [
  | inl w ↦
      rw w (ground (arith, length-sort_by (λ a b. after a.timestamp b.timestamp) (es ++ cached)))
  | inr w ↦ rw w (ground arith)
]

-- Without a wrap, the rows that are merged do not matter.
after_rows_safe :
    (q : Query) (rows : List LogEntry) (answer : List LogEntry → LogAnswer)
    → ((es : List LogEntry) → is_panic (answer es) ≡ false)
    → is_panic (after_rows q rows answer) ≡ false
after_rows_safe gives_rows rows answer h = h rows
after_rows_safe gives_nothing rows answer h = h []
after_rows_safe gives_error rows answer h = refl

-- With one, there are none, or there is an error.
after_rejected :
    (q : Query) (rows : List LogEntry) (answer : List LogEntry → LogAnswer) (b : Bool)
    → is_panic (answer []) ≡ b
    → is_panic (after_rows (negative_limit q) rows answer) ≡ (b && not (gives_an_error q))
after_rejected gives_rows rows answer b h = ground (arith, h)
after_rejected gives_nothing rows answer b h = ground (arith, h)
after_rejected gives_error rows answer b h = ground arith

module _ (api_logs fetcher_logs : List LogEntry) (api_exists fetcher_exists up_count : Bool)
    (q : Query) (opts : LogQuery) where
  abbrev answer : List LogEntry → LogAnswer
  answer cached = read_logs api_logs fetcher_logs api_exists fetcher_exists up_count q opts cached

  abbrev has : Bool
  has = has_source api_logs fetcher_logs api_exists fetcher_exists opts

  -- Where there are log tables to ask and entries to merge.
  merged_lem :
      (rows cached : List LogEntry) (total : ℕ)
      → is_panic (
          after_rows
            (if wraps opts then negative_limit q else q)
            rows
            (λ es. merge_page opts es cached total))
        ≡ (wraps opts && ltb opts.offset (length cached) && not (gives_an_error q))
  merged_lem rows cached total =
      let one : (es : List LogEntry)
          → is_panic (merge_page opts es cached total)
            ≡ (wraps opts && ltb opts.offset (length (es ++ cached))) =
        λ es. merge_page_lem opts es cached total in
      elim (Bool-cases (wraps opts)) [
        | inl w ↦
            let rejects : (if wraps opts then negative_limit q else q) ≡ negative_limit q =
              rw w refl in
            rw rejects (
              after_rejected q rows (λ es. merge_page opts es cached total) _ (one [])
              ∙ rw w (ground arith))
        | inr w ↦ rw (as_asked opts q w) (
            after_rows_safe q rows (λ es. merge_page opts es cached total)
              (λ es. one es ∙ rw w refl)
            ∙ rw w refl)
      ]

  read_logs_lem :
      (cached : List LogEntry)
      → is_panic (answer cached)
        ≡ (wraps opts && ltb opts.offset (length cached) && not (has && gives_an_error q))
  unfolding read_logs
  read_logs_lem [] = elim (Bool-cases has) [
    | inr e ↦ rw e (ground arith)
    | inl e ↦ rw e (after_rows_safe q _ _ (λ es. refl) ∙ ground arith)
  ]
  read_logs_lem (c ∷ cs) = elim (Bool-cases has) [
    | inr e ↦ rw e (merge_page_lem opts [] (c ∷ cs) 0 ∙ ground arith)
    | inl e ↦ rw e (merged_lem _ (c ∷ cs) _)
  ]

module _ {lance : Lance} (duck : ℕ → Bool) (now : ℕ) (uuid : ℕ → String) (messages : Messages) where
  -- `GetLogs` panics exactly where offset and limit add up to 2 ^ 63 or more and the local cache adds more
  -- entries than the offset skips, unless there is a log table to ask and the query of its rows gives an
  -- error.
  pub get_logs-panics :
      (fetcher_logs : lance.Db → List LogEntry) (fetcher_exists up_count : Bool) (q : Query)
      (opts : LogQuery) (lb : LogBuffer) (p : LogPath lance)
      → let p' = (flush (flush_logs_3_tier duck now uuid messages) lb p).2 in
        is_panic
          (get_logs fetcher_logs fetcher_exists duck now uuid messages up_count q opts lb p).0
        ≡ (leb (2 ^ 63) (opts.offset + limit_of opts)
            && ltb opts.offset (length (cached_entries duck opts p'.off_cache).0)
            && not (
                has_source
                  (lance.logs p'.db)
                  (fetcher_logs p'.db)
                  p'.table_exists
                  fetcher_exists
                  opts
                && gives_an_error q))
  unfolding get_logs
  get_logs-panics fetcher_logs fetcher_exists up_count q opts lb p =
      let p' = (flush (flush_logs_3_tier duck now uuid messages) lb p).2 in
      read_logs_lem (lance.logs p'.db) (fetcher_logs p'.db) p'.table_exists fetcher_exists up_count
        q opts (cached_entries duck opts p'.off_cache).0
