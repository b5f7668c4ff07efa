-- ===== src/LogPath/Trim/Newest.antt =====
-- Which entries a trim of the log leaves.
use rss_lance.Base.{
  ℕ, zero, suc, ◌+◌, ◌-◌, ◌≤◌, ◌<◌, List, [], ◌∷◌, Bool, true, false, not, Option, none, some, ◌≡◌,
  refl, ap, sym, subst, ◌∙◌, arith, ltb, leb, keep_if, length, take, drop, All, All-map,
  keep_if-append, length-append, length-take, take-append-drop, ◌⊎◌, inl, inr, Bool-cases,
}
use rss_lance.Base.Int.{pos}
use rss_lance.Types.{LogEntry}
use rss_lance.Offline.{sort_by, after}
use rss_lance.Offline.Sorting.{
  IsOrder, IsSorted, sort_by-IsSorted, count-sort_by, length-sort_by, All-sort_by,
}
use rss_lance.Store.{Query, gives_rows, gives_nothing, gives_error}
use rss_lance.Writer.{Lance}
use rss_lance.LogPath.Trim.{before_time, older_than, LogTable, later_first, trim_logs}

-- An entry with a time after the given one.
abbrev after_time : ℕ → Option ℕ → Bool
after_time t none = false
after_time t (some u) = ltb t u

abbrev pub newer_than : ℕ → LogEntry → Bool
newer_than t e = after_time t e.timestamp

pub record HasTime (e : LogEntry) : Type 0 where
  pub time : ℕ
  pub set : e.timestamp ≡ some time

after-asymmetric : (a b : Option ℕ) → after a b ≡ true → after b a ≡ false
after-asymmetric none b h = cc
after-asymmetric (some a) none h = refl
after-asymmetric (some a) (some b) h = ground arith

after-transitive : (a b c : Option ℕ) → after a b ≡ true → after b c ≡ true → after a c ≡ true
after-transitive none b c h g = h
after-transitive (some a) none c h g = cc
after-transitive (some a) (some b) none h g = refl
after-transitive (some a) (some b) (some c) h g = ground arith

pub later_first-IsOrder : IsOrder later_first
later_first-IsOrder = record {
  asymmetric = λ x y. after-asymmetric x.timestamp y.timestamp;
  transitive = λ x y z. after-transitive x.timestamp y.timestamp z.timestamp;
}

module _ {A : Type 0} where
  All-drop : (P : A → Type 0) (m : ℕ) (xs : List A) → All P xs → All P (drop m xs)
  All-drop P zero xs h = h
  All-drop P (suc m) [] h = tt
  All-drop P (suc m) (x ∷ xs) h = All-drop P m xs h.1

  -- The item at a place, and what stands behind it.
  item_at :
      (m : ℕ) (xs : List A) → m < length xs → (e : A) × (rest : List A) × (drop m xs ≡ e ∷ rest)
  item_at m [] h = absurd (omega arith)
  item_at zero (x ∷ xs) h = (x, xs, refl)
  item_at (suc m) (x ∷ xs) h = item_at m xs (omega arith)

  kept_all :
      (p : A → Bool) (xs : List A) → All (λ x. p x ≡ true) xs → length (keep_if p xs) ≡ length xs
  kept_all p [] h = refl
  kept_all p (x ∷ xs) h = ground (arith, h.0, kept_all p xs h.1)

  kept_none : (p : A → Bool) (xs : List A) → All (λ x. p x ≡ false) xs → length (keep_if p xs) ≡ 0
  kept_none p [] h = refl
  kept_none p (x ∷ xs) h = ground (arith, h.0, kept_none p xs h.1)

  length-keep_if : (p : A → Bool) (xs : List A) → length (keep_if p xs) ≤ length xs
  length-keep_if p [] = omega arith
  length-keep_if p (x ∷ xs) = ground (arith, length-keep_if p xs)

  -- The items that pass a test, in front of a place and from it on.
  kept_split :
      (p : A → Bool) (m : ℕ) (xs : List A)
      → length (keep_if p xs) ≡ length (keep_if p (take m xs)) + length (keep_if p (drop m xs))
  kept_split p m xs =
      ap (λ l. length (keep_if p l)) (sym (take-append-drop m xs))
      ∙ ap length (keep_if-append p (take m xs) (drop m xs))
      ∙ length-append (keep_if p (take m xs)) (keep_if p (drop m xs))

  module _ (less : A → A → Bool) (order : IsOrder less) where
    pub drop-IsSorted :
        (m : ℕ) (xs : List A) → IsSorted less order xs → IsSorted less order (drop m xs)
    drop-IsSorted zero xs h = h
    drop-IsSorted (suc m) [] h = tt
    drop-IsSorted (suc m) (x ∷ xs) h = drop-IsSorted m xs h.1

    in_front :
        (m : ℕ) (xs : List A) (e : A) (rest : List A)
        → IsSorted less order xs
        → drop m xs ≡ e ∷ rest
        → All (λ x. less e x ≡ false) (take m xs)
    in_front zero xs e rest h d = tt
    in_front (suc m) [] e rest h d = tt
    in_front (suc m) (x ∷ xs) e rest h d = (
      (subst (All (λ y. less y x ≡ false)) d (All-drop _ m xs h.0)).0,
      in_front m xs e rest h.1 d,
    )

not_older : (t : ℕ) (o : Option ℕ) → after (some t) o ≡ false → not (before_time t o) ≡ true
not_older t none h = cc
not_older t (some u) h = ground arith

not_newer : (t : ℕ) (o : Option ℕ) → after o (some t) ≡ false → after_time t o ≡ false
not_newer t none h = refl
not_newer t (some u) h = ground arith

-- The entries in order, the newest first, and the one at a place with its time.
module _ (m : ℕ) (t : ℕ) (xs : List LogEntry) (e : LogEntry) (rest : List LogEntry)
    (sorted : IsSorted later_first later_first-IsOrder xs) (here : drop m xs ≡ e ∷ rest)
    (time : e.timestamp ≡ some t) (long : m < length xs) where
  at_least : m < length (keep_if (λ x. not (older_than t x)) xs)
  at_least =
      let p : LogEntry → Bool = λ x. not (older_than t x) in
      let front : All (λ x. p x ≡ true) (take m xs) =
        All-map (take m xs)
          (λ x h. not_older t x.timestamp (subst (λ o. after o x.timestamp ≡ false) time h))
          (in_front later_first later_first-IsOrder m xs e rest sorted here) in
      let itself : p e ≡ true = rw (time) (ground arith) in
      let behind : length (keep_if p (drop m xs)) ≡ suc (length (keep_if p rest)) =
        ap (λ l. length (keep_if p l)) here ∙ ground (arith, itself) in
      omega (arith, kept_split p m xs, kept_all p (take m xs) front, length-take m xs, behind)

  at_most : length (keep_if (newer_than t) xs) ≤ m
  at_most =
      let back : All (λ x. later_first x e ≡ false) rest =
        (subst (IsSorted later_first later_first-IsOrder) here
          (drop-IsSorted later_first later_first-IsOrder m xs sorted)).0 in
      let none_behind : length (keep_if (newer_than t) rest) ≡ 0 = kept_none (newer_than t) rest (
        All-map rest
          (λ x h. not_newer t x.timestamp (subst (λ o. after x.timestamp o ≡ false) time h))
          back) in
      let itself : newer_than t e ≡ false = rw (time) (ground arith) in
      let behind : length (keep_if (newer_than t) (drop m xs)) ≡ 0 =
        ap (λ l. length (keep_if (newer_than t) l)) here ∙ ground (arith, itself, none_behind) in
      omega (
        arith,
        kept_split (newer_than t) m xs,
        length-keep_if (newer_than t) (take m xs),
        length-take m xs,
        behind,
      )

-- A trim to `n` entries: what is left of the entries is all that is not older than some time, which
-- are `n` or more, and of which fewer than `n` are newer than that time.
pub record Trimmed (n : ℕ) (entries left : List LogEntry) : Type 0 where
  pub cutoff : ℕ
  pub left_lem : left ≡ keep_if (λ e. not (older_than cutoff e)) entries
  pub enough : n ≤ length left
  pub tight : length (keep_if (newer_than cutoff) entries) < n

module _ {lance : Lance} (table : LogTable lance) (m : ℕ) (db : lance.Db) where
  abbrev sorted_logs : List LogEntry
  sorted_logs = sort_by later_first (lance.logs db)

  trims :
      (e : LogEntry) (rest : List LogEntry) (t : ℕ)
      → leb (length (lance.logs db)) (suc m) ≡ false
      → drop m sorted_logs ≡ e ∷ rest
      → e.timestamp ≡ some t
      → trim_logs table true gives_rows gives_rows (pos (suc m)) db ≡ table.delete (some t) db
  unfolding trim_logs
  trims e rest t long here time =
      let positive : leb (suc m) 0 ≡ false = ground arith in
      let one_less : suc m - 1 ≡ m = omega arith in rw (positive, long, one_less, here, time) refl

  trimmed :
      All HasTime (lance.logs db)
      → leb (length (lance.logs db)) (suc m) ≡ false
      → (trim_logs table true gives_rows gives_rows (pos (suc m)) db).0 ≡ true
      → Trimmed
          (suc m)
          (lance.logs db)
          (lance.logs (trim_logs table true gives_rows gives_rows (pos (suc m)) db).1)
  trimmed times long done =
      let size = length-sort_by later_first (lance.logs db) in
      let inside : m < length sorted_logs = ground (arith, size) in
      let (e, rest, here) = item_at m sorted_logs inside in
      let timed : HasTime e =
        (subst (All HasTime) here (
          All-drop HasTime m sorted_logs
            (All-sort_by later_first HasTime (lance.logs db) times))).0 in
      let t = timed.time in
      let call = trims e rest t long here timed.set in
      let in_order = sort_by-IsSorted later_first later_first-IsOrder (lance.logs db) in
      let left : lance.logs (trim_logs table true gives_rows gives_rows (pos (suc m)) db).1
          ≡ keep_if (λ x. not (older_than t x)) (lance.logs db) =
        ap (λ r. lance.logs r.1) call
        ∙ table.logs-delete t db
        ∙ rw (sym (ap (λ r. r.0) call) ∙ done) refl in
      record {
        cutoff = t;
        left_lem = left;
        enough = rw left (
            ground (
              arith,
              at_least m t sorted_logs e rest in_order here timed.set inside,
              count-sort_by later_first (λ x. not (older_than t x)) (lance.logs db),
            ));
        tight = ground (
          arith,
          at_most m t sorted_logs e rest in_order here timed.set inside,
          count-sort_by later_first (newer_than t) (lance.logs db),
        );
      }

-- The database of what `TrimLogs` returns without an error.
abbrev pub Outcome : (lance : Lance) → Query → Query → ℕ → lance.Db → lance.Db → Type 0
Outcome lance gives_rows gives_rows n db left =
    ((length (lance.logs db) ≤ n) × (left ≡ db)) ⊎ Trimmed n (lance.logs db) (lance.logs left)
Outcome lance gives_rows gives_nothing n db left = left ≡ db
Outcome lance gives_rows gives_error n db left = left ≡ db
Outcome lance gives_nothing cutoff n db left = left ≡ db
Outcome lance gives_error cutoff n db left = left ≡ db

-- A `TrimLogs` to a positive number of entries that returns no error, of a log table that exists and in
-- which every entry has a time. Where both its queries give their rows: if the table has no more
-- entries, nothing changes; else the entries that are left are all that are not older than some time,
-- they are as many as asked for or more, and fewer than that are newer than this time. Where one of
-- the queries is rejected, nothing changes either, although no error is returned; where the second
-- gives an error, the table has no more entries and nothing changes.
pub trim_logs_lem :
    {lance : Lance} (table : LogTable lance) (count cutoff : Query) (m : ℕ) (db : lance.Db)
    → All HasTime (lance.logs db)
    → (trim_logs table true count cutoff (pos (suc m)) db).0 ≡ true
    → Outcome lance count cutoff (suc m) db (trim_logs table true count cutoff (pos (suc m)) db).1
unfolding trim_logs
trim_logs_lem table gives_error cutoff m db times done = ground arith
trim_logs_lem table gives_nothing cutoff m db times done = ground arith
trim_logs_lem {lance} table gives_rows gives_nothing m db times done = ground arith
trim_logs_lem {lance} table gives_rows gives_error m db times done = ground arith
trim_logs_lem {lance} table gives_rows gives_rows m db times done =
    elim (Bool-cases (leb (length (lance.logs db)) (suc m))) [
      | inl fits ↦ inl (ground (arith, fits), ground (arith, fits))
      | inr long ↦ inr (trimmed table m db times long done)
    ]
