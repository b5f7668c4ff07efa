-- ===== src/LogBuffer/NoLoss.antt =====
-- Where the entries of the log buffer are, under concurrent calls.
use rss_lance.Base.{
  ℕ, suc, ◌+◌, ◌-◌, ◌≤◌, List, [], ◌∷◌, ◌++◌, Bool, true, false, ◌≡◌, refl, ap, ◌∙◌, arith,
  if◌then◌else◌, length, take, drop, keep_if, length-append, keep_if-append, take-append-drop,
}
use rss_lance.Types.{LogEntry}
use rss_lance.LogBuffer.{
  LogBuffer, LogBufferConfig, add_locked, begin_flush, finish_flush, new_log_buffer,
}
use rss_lance.LogBuffer.Steps.{
  System, Step, added, began, succeeded, failed, stopping, Reach, here, next, start, taken, cut_off,
}

-- How many entries of a list pass a test.
abbrev pub count_if : (LogEntry → Bool) → List LogEntry → ℕ
count_if p xs = length (keep_if p xs)

abbrev pub flying : (LogEntry → Bool) → List (List LogEntry) → ℕ
flying p [] = 0
flying p (b ∷ bs) = count_if p b + flying p bs

pub count_if-append :
    (p : LogEntry → Bool) (xs ys : List LogEntry)
    → count_if p (xs ++ ys) ≡ count_if p xs + count_if p ys
count_if-append p xs ys =
    ap length (keep_if-append p xs ys) ∙ length-append (keep_if p xs) (keep_if p ys)

flying-append :
    (p : LogEntry → Bool) (xs ys : List (List LogEntry))
    → flying p (xs ++ ys) ≡ flying p xs + flying p ys
flying-append p [] ys = omega arith
flying-append p (b ∷ bs) ys = omega (arith, flying-append p bs ys)

-- Each accepted entry is in one place.
abbrev pub Conserved : (LogEntry → Bool) → System → Type 0
Conserved p s =
    count_if p s.accepted
    ≡ count_if p s.written
      + flying p s.in_flight
      + count_if p s.buffer.entries
      + count_if p s.dropped

module _ (p : LogEntry → Bool) where
  added-Conserved :
      (s : System) (e : LogEntry)
      → count_if p (if s.buffer.stopped then s.accepted else s.accepted ++ e ∷ [])
          + count_if p s.buffer.entries
        ≡ count_if p s.accepted + count_if p (add_locked e s.buffer).0.entries
  unfolding add_locked
  added-Conserved s e =
      ground
        (arith, count_if-append p s.accepted (e ∷ []), count_if-append p s.buffer.entries (e ∷ []))

  began-Conserved :
      (lb : LogBuffer)
      → flying p (taken (begin_flush lb).1) + count_if p (begin_flush lb).0.entries
        ≡ count_if p lb.entries
  unfolding begin_flush
  began-Conserved lb = ground arith

  failed-Conserved :
      (batch : List LogEntry) (lb : LogBuffer)
      → count_if p (finish_flush false batch lb).entries + count_if p (cut_off batch lb)
        ≡ count_if p batch + count_if p lb.entries
  unfolding finish_flush
  failed-Conserved batch lb =
      let all : List LogEntry = batch ++ lb.entries in
      ground (
        arith,
        count_if-append p batch lb.entries,
        count_if-append p (take (length all - lb.cfg.memory_cap) all)
            (drop (length all - lb.cfg.memory_cap) all),
        take-append-drop (length all - lb.cfg.memory_cap) all,
      )

  landed :
      (s : System) (before after : List (List LogEntry)) (batch : List LogEntry)
      → s.in_flight ≡ before ++ batch ∷ after
      → flying p s.in_flight ≡ flying p (before ++ after) + count_if p batch
  landed s before after batch e =
      omega (
        arith,
        ap (flying p) e,
        flying-append p before (batch ∷ after),
        flying-append p before after,
      )

  Step-Conserved : {s t : System} → Step s t → Conserved p s → Conserved p t
  Step-Conserved (added s e) h = omega (arith, added-Conserved s e)
  Step-Conserved (began s) h = omega (
    arith,
    began-Conserved s.buffer,
    flying-append p (taken (begin_flush s.buffer).1) s.in_flight,
  )
  Step-Conserved (succeeded s before after batch e) h =
      unfold finish_flush in
      omega (arith, landed s before after batch e, count_if-append p s.written batch)
  Step-Conserved (failed s before after batch e) h = omega (
    arith,
    landed s before after batch e,
    failed-Conserved batch s.buffer,
    count_if-append p s.dropped (cut_off batch s.buffer),
  )
  Step-Conserved (stopping s) h = h

  Reach-Conserved : (cfg : LogBufferConfig) {s : System} → Reach (start cfg) s → Conserved p s
  unfolding new_log_buffer
  Reach-Conserved cfg here = refl
  Reach-Conserved cfg (next r st) = Step-Conserved st (Reach-Conserved cfg r)

-- With room for all entries that were ever accepted, the cap has dropped none.
record HasRoom (cap : ℕ) (s : System) : Type 0 where
  cap_kept : s.buffer.cfg.memory_cap ≡ cap
  none_dropped : length s.accepted ≤ cap → s.dropped ≡ []

abbrev any : LogEntry → Bool
any e = true

count_if-any : (xs : List LogEntry) → count_if any xs ≡ length xs
count_if-any [] = refl
count_if-any (x ∷ xs) = ap suc (count_if-any xs)

cut_off-nil :
    (batch : List LogEntry) (lb : LogBuffer)
    → length batch + length lb.entries ≤ lb.cfg.memory_cap
    → cut_off batch lb ≡ []
cut_off-nil batch lb h = ground (arith, length-append batch lb.entries)

memory_cap-add_locked :
    (e : LogEntry) (lb : LogBuffer) → (add_locked e lb).0.cfg.memory_cap ≡ lb.cfg.memory_cap
unfolding add_locked
memory_cap-add_locked e lb = ground arith

length-flying :
    (s : System) (before after : List (List LogEntry)) (batch : List LogEntry)
    → s.in_flight ≡ before ++ batch ∷ after
    → Conserved any s
    → length batch + length s.buffer.entries ≤ length s.accepted
length-flying s before after batch e h = omega (
  arith,
  landed any s before after batch e,
  count_if-any batch,
  count_if-any s.buffer.entries,
  count_if-any s.accepted,
)

module _ (cap : ℕ) where
  Step-HasRoom : {s t : System} → Step s t → Conserved any s → HasRoom cap s → HasRoom cap t
  Step-HasRoom (added s e) c h = record {
    cap_kept = memory_cap-add_locked e s.buffer ∙ h.cap_kept;
    none_dropped = λ q. h.none_dropped (fewer q);
  }
    where
      fewer :
          length (if s.buffer.stopped then s.accepted else s.accepted ++ e ∷ []) ≤ cap
          → length s.accepted ≤ cap
      fewer q = ground (arith, length-append s.accepted (e ∷ []))
  Step-HasRoom (began s) c h = record {
    cap_kept = unfold begin_flush in h.cap_kept;
    none_dropped = h.none_dropped;
  }
  Step-HasRoom (succeeded s before after batch e) c h = record {
    cap_kept = unfold finish_flush in h.cap_kept;
    none_dropped = h.none_dropped;
  }
  Step-HasRoom (failed s before after batch e) c h = record {
    cap_kept = unfold finish_flush in h.cap_kept;
    none_dropped = λ q. rw (h.none_dropped q) (
        cut_off-nil batch s.buffer
          (omega (arith, length-flying s before after batch e c, h.cap_kept)));
  }
  Step-HasRoom (stopping s) c h = record { cap_kept = h.cap_kept; none_dropped = h.none_dropped }

Reach-HasRoom :
    (cfg : LogBufferConfig) {s : System}
    → Reach (start cfg) s
    → HasRoom (new_log_buffer cfg).cfg.memory_cap s
Reach-HasRoom cfg here = record { cap_kept = refl; none_dropped = λ q. refl }
Reach-HasRoom cfg (next r st) = Step-HasRoom _ st (Reach-Conserved any cfg r) (Reach-HasRoom cfg r)

-- In every state that concurrent calls can reach, whichever flushes fail and in whatever order they
-- return: while no more entries were accepted than the memory cap allows, each accepted entry is,
-- as often as it was accepted, written, held by a running flush, or still in the buffer. Past the
-- cap the only others are those that a failed flush cut off.
pub no_entry_lost :
    (cfg : LogBufferConfig) (s : System)
    → Reach (start cfg) s
    → (p : LogEntry → Bool)
    → (count_if p s.accepted
        ≡ count_if p s.written
          + flying p s.in_flight
          + count_if p s.buffer.entries
          + count_if p s.dropped)
      × (length s.accepted ≤ (new_log_buffer cfg).cfg.memory_cap → s.dropped ≡ [])
no_entry_lost cfg s r p = (Reach-Conserved p cfg r, (Reach-HasRoom cfg r).none_dropped)
