-- ===== src/LogBuffer.antt =====
-- The buffered log writer, server/db/logbuffer.go. What runs under the lock is one step; `flush`
-- lets the lock go while `flushFn` runs, so it is two steps with `flushFn` between them.
pub mod Steps
pub mod NoLoss
pub mod Timer
pub mod Order
use rss_lance.Base.{
  ℕ, ◌+◌, ◌-◌, List, [], ◌∷◌, ◌++◌, Bool, true, false, not, ◌&&◌, Option, none, some, ltb, leb,
  ◌==◌, if◌then◌else◌, length, drop,
}
use rss_lance.Types.{LogEntry}

-- The values come from `settingInt`, which returns no negative number, or from the defaults.
pub record LogBufferConfig : Type 0 where
  pub flush_threshold : ℕ
  pub flush_interval_secs : ℕ
  pub memory_cap : ℕ

abbrev pub default_log_buffer_config : LogBufferConfig
default_log_buffer_config = record {
  flush_threshold = 20;
  flush_interval_secs = 30;
  memory_cap = 100000;
}

-- `timer` says whether a flush timer is set.
pub record LogBuffer : Type 0 where
  pub entries : List LogEntry
  pub timer : Bool
  pub cfg : LogBufferConfig
  pub stopped : Bool

-- `newLogBuffer`: a setting that is not above 0 takes its default.
unfoldable pub new_log_buffer : LogBufferConfig → LogBuffer
new_log_buffer cfg = record {
  entries = [];
  timer = false;
  cfg = record {
    flush_threshold = if cfg.flush_threshold == 0 then 20 else cfg.flush_threshold;
    flush_interval_secs = if cfg.flush_interval_secs == 0 then 30 else cfg.flush_interval_secs;
    memory_cap = if cfg.memory_cap == 0 then 100000 else cfg.memory_cap;
  };
  stopped = false;
}

-- `startTimerLocked`.
unfoldable pub start_timer_locked : LogBuffer → LogBuffer
start_timer_locked lb =
    if (length lb.entries == 1) && not lb.timer && ltb 0 lb.cfg.flush_interval_secs
    then record lb { timer = true }
    else lb

-- The part of `add` under the lock: the new buffer, and whether the threshold is reached.
unfoldable pub add_locked : LogEntry → LogBuffer → LogBuffer × Bool
unfolding start_timer_locked
add_locked entry lb = if lb.stopped then (lb, false) else (
  start_timer_locked (record lb { entries = lb.entries ++ entry ∷ [] }),
  leb lb.cfg.flush_threshold (length (lb.entries ++ entry ∷ [])),
)

-- The part of `flush` up to `flushFn`: the timer stops, and the entries are taken. `none` is the
-- early return at an empty buffer.
unfoldable pub begin_flush : LogBuffer → LogBuffer × Option (List LogEntry)
begin_flush lb = (
  record lb { entries = []; timer = false },
  elim lb.entries [ [] ↦ none | e ∷ es ↦ some (e ∷ es) ],
)

-- The part of `flush` behind `flushFn`, which returned an error unless `written`.
unfoldable pub finish_flush : Bool → List LogEntry → LogBuffer → LogBuffer
finish_flush true batch lb = lb
finish_flush false batch lb =
    let all = batch ++ lb.entries in
    record lb {
      entries =
          if ltb 0 lb.cfg.memory_cap && ltb lb.cfg.memory_cap (length all)
          then drop (length all - lb.cfg.memory_cap) all
          else all;
    }

-- `pending`.
unfoldable pub pending : LogBuffer → ℕ
pending lb = length lb.entries

-- `flushFn` acts on a world `W`, and returns true where it returns no error.
module _ {W : Type 0} (flush_fn : List LogEntry → W → Bool × W) where
  flush_batch : Option (List LogEntry) → LogBuffer → W → LogBuffer × Bool × W
  unfolding finish_flush
  flush_batch none lb w = (lb, true, w)
  flush_batch (some batch) lb w =
      let (written, w') = flush_fn batch w in (finish_flush written batch lb, written, w')

  -- `flush`, where no other call runs during `flushFn`: the result is true where it returns no error.
  unfoldable pub flush : LogBuffer → W → LogBuffer × Bool × W
  unfolding begin_flush flush_batch
  flush lb w = flush_batch (begin_flush lb).1 (begin_flush lb).0 w

  -- `add`.
  unfoldable pub add : LogEntry → LogBuffer → W → LogBuffer × W
  unfolding add_locked flush
  add entry lb w =
      let (lb', should_flush) = add_locked entry lb in
      if should_flush then (let (lb'', written, w') = flush lb' w in (lb'', w')) else (lb', w)

  -- `close`.
  unfoldable pub close : LogBuffer → W → LogBuffer × Bool × W
  unfolding flush
  close lb w = if lb.stopped then (lb, true, w) else flush (record lb { stopped = true }) w
