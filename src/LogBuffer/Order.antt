-- ===== src/LogBuffer/Order.antt =====
-- The log buffer with one flush at a time: entries reach the sink in the order of their calls.
use rss_lance.Base.{
  ◌+◌, ◌≤◌, List, [], ◌∷◌, ◌++◌, Bool, true, false, none, some, ◌≡◌, refl, sym, ◌∙◌, arith,
  append-nil, append_assoc, length, length-append, if◌then◌else◌, Bool-cases, inl, inr,
}
use rss_lance.Types.{LogEntry}
use rss_lance.LogBuffer.{LogBuffer, flush, flush_batch, add, add_locked, close}

-- A sink that keeps what is written: a batch is appended whole, or not at all.
pub record Sink : Type 1 where
  pub World : Type 0
  pub write : List LogEntry → World → Bool × World
  pub log : World → List LogEntry
  pub written :
      (batch : List LogEntry) (w : World)
      → log (write batch w).1 ≡ (if (write batch w).0 then log w ++ batch else log w)

pub data Op : Type 0 where
  adding : LogEntry → Op
  flushing : Op
  closing : Op

-- The entries that a run of calls hands over before the buffer is closed.
abbrev pub accepted : Bool → List Op → List LogEntry
accepted stopped [] = []
accepted stopped (adding e ∷ ops) =
    let rest = accepted stopped ops in if stopped then rest else e ∷ rest
accepted stopped (flushing ∷ ops) = accepted stopped ops
accepted stopped (closing ∷ ops) = accepted true ops

module _ (sink : Sink) where
  open sink use {World, write, log, written}

  unfoldable pub run : List Op → LogBuffer × World → LogBuffer × World
  unfolding add flush close
  run [] s = s
  run (adding e ∷ ops) (lb, w) = run ops (add write e lb w)
  run (flushing ∷ ops) (lb, w) = let (lb', ok, w') = flush write lb w in run ops (lb', w')
  run (closing ∷ ops) (lb, w) = let (lb', ok, w') = close write lb w in run ops (lb', w')

  -- What is written and what is buffered, in order.
  abbrev stream : LogBuffer → World → List LogEntry
  stream lb w = log w ++ lb.entries

  -- `lb` has taken the entries `xs` out, and has none left.
  record Flushed (xs : List LogEntry) (lb : LogBuffer) (w : World) (lb' : LogBuffer) (w' : World)
      : Type 0 where
    same_stream : stream lb' w' ≡ log w ++ xs
    shorter : length lb'.entries ≤ length xs
    same_stop : lb'.stopped ≡ lb.stopped
    same_cap : lb'.cfg.memory_cap ≡ lb.cfg.memory_cap

  flush_batch-Flushed :
      (xs : List LogEntry) (lb : LogBuffer) (w : World)
      → lb.entries ≡ []
      → length xs ≤ lb.cfg.memory_cap
      → let (lb', ok, w') =
          flush_batch write (elim xs [ [] ↦ none | e ∷ es ↦ some (e ∷ es) ]) lb w in
        Flushed xs lb w lb' w'
  unfolding flush_batch
  flush_batch-Flushed [] lb w z h = record {
    same_stream = rw z;
    shorter = rw z (omega arith);
    same_stop = refl;
    same_cap = refl;
  }
  flush_batch-Flushed (e ∷ es) lb w z h =
      let batch : List LogEntry = e ∷ es in
      ground (
        arith,
        z,
        written batch w,
        append-nil batch,
        append-nil (log w ++ batch),
        length-append batch lb.entries,
      )

  flush-Flushed :
      (lb : LogBuffer) (w : World)
      → length lb.entries ≤ lb.cfg.memory_cap
      → let (lb', ok, w') = flush write lb w in Flushed lb.entries lb w lb' w'
  unfolding flush
  flush-Flushed lb w h =
      let f = flush_batch-Flushed lb.entries (record lb { entries = []; timer = false }) w refl h in
      record {
        same_stream = f.same_stream;
        shorter = f.shorter;
        same_stop = f.same_stop;
        same_cap = f.same_cap;
      }

  -- `add` of one entry, under the memory cap.
  record Added (e : LogEntry) (lb : LogBuffer) (w : World) (lb' : LogBuffer) (w' : World)
      : Type 0 where
    one_more : stream lb' w' ≡ (if lb.stopped then stream lb w else stream lb w ++ e ∷ [])
    shorter : length lb'.entries ≤ length lb.entries + (if lb.stopped then 0 else 1)
    same_stop : lb'.stopped ≡ lb.stopped
    same_cap : lb'.cfg.memory_cap ≡ lb.cfg.memory_cap

  add_locked-Added :
      (e : LogEntry) (lb : LogBuffer) (w : World) → Added e lb w (add_locked e lb).0 w
  unfolding add_locked
  add_locked-Added e lb w =
      ground (arith, append_assoc (log w) lb.entries (e ∷ []), length-append lb.entries (e ∷ []))

  add-Added :
      (e : LogEntry) (lb : LogBuffer) (w : World)
      → length lb.entries + (if lb.stopped then 0 else 1) ≤ lb.cfg.memory_cap
      → let (lb', w') = add write e lb w in Added e lb w lb' w'
  unfolding add
  add-Added e lb w h =
      let a = add_locked-Added e lb w in
      let f = flush-Flushed (add_locked e lb).0 w (omega (arith, a.shorter, a.same_cap)) in
      elim (Bool-cases (add_locked e lb).1) [
        | inl now ↦ rw now (record {
          one_more = f.same_stream ∙ a.one_more;
          shorter = omega (arith, f.shorter, a.shorter);
          same_stop = f.same_stop ∙ a.same_stop;
          same_cap = f.same_cap ∙ a.same_cap;
        })
        | inr later ↦ rw later a
      ]

  record Closed (lb : LogBuffer) (w : World) (lb' : LogBuffer) (w' : World) : Type 0 where
    same_stream : stream lb' w' ≡ stream lb w
    shorter : length lb'.entries ≤ length lb.entries
    now_stopped : lb'.stopped ≡ true
    same_cap : lb'.cfg.memory_cap ≡ lb.cfg.memory_cap

  close-Closed :
      (lb : LogBuffer) (w : World)
      → length lb.entries ≤ lb.cfg.memory_cap
      → let (lb', ok, w') = close write lb w in Closed lb w lb' w'
  unfolding close
  close-Closed lb w h = ground (arith, flush-Flushed (record lb { stopped = true }) w)

  -- Calls one after the other, whichever writes fail, hand every entry accepted before `close` to
  -- the sink or keep it in the buffer, in the order of the calls and behind what was there before,
  -- as long as they all fit under the memory cap.
  pub run_in_order :
      (ops : List Op) (lb : LogBuffer) (w : World)
      → length lb.entries + length (accepted lb.stopped ops) ≤ lb.cfg.memory_cap
      → let (lb', w') = run ops (lb, w) in
        log w' ++ lb'.entries ≡ (log w ++ lb.entries) ++ accepted lb.stopped ops
  unfolding run
  run_in_order [] lb w h = sym (append-nil _)
  run_in_order (adding e ∷ ops) lb w h =
      let lb' : LogBuffer = (add write e lb w).0 in
      let w' : World = (add write e lb w).1 in
      ground (
        arith,
        add-Added e lb w,
        run_in_order ops lb' w',
        append_assoc (log w ++ lb.entries) (e ∷ []) (accepted lb.stopped ops),
      )
  run_in_order (flushing ∷ ops) lb w h =
      let lb' : LogBuffer = (flush write lb w).0 in
      let w' : World = (flush write lb w).2 in
      ground (arith, flush-Flushed lb w, run_in_order ops lb' w')
  run_in_order (closing ∷ ops) lb w h =
      let lb' : LogBuffer = (close write lb w).0 in
      let w' : World = (close write lb w).2 in
      ground (arith, close-Closed lb w, run_in_order ops lb' w')
