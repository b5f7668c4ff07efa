-- ===== src/LogBuffer/Steps.antt =====
-- The log buffer under concurrent calls, server/db/logbuffer.go: any number of flushes may be under way
-- while entries are added.
use rss_lance.Base.{
  ℕ, ◌+◌, ◌-◌, List, [], ◌∷◌, ◌++◌, true, false, Option, none, some, ltb, ◌&&◌, ◌≡◌, if◌then◌else◌,
  length, take,
}
use rss_lance.Types.{LogEntry}
use rss_lance.LogBuffer.{
  LogBuffer, LogBufferConfig, add_locked, begin_flush, finish_flush, new_log_buffer,
}

-- The buffer, the batches that a running `flushFn` holds, and what became of the other entries:
-- `accepted` those that `add` took, `written` those of a flush that succeeded, `dropped` those that
-- the memory cap cut off. `failures` counts the flushes that failed.
pub record System : Type 0 where
  pub buffer : LogBuffer
  pub in_flight : List (List LogEntry)
  pub accepted : List LogEntry
  pub written : List LogEntry
  pub dropped : List LogEntry
  pub failures : ℕ

-- What a failed flush cuts off.
abbrev pub cut_off : List LogEntry → LogBuffer → List LogEntry
cut_off batch lb =
    let all = batch ++ lb.entries in
    if ltb 0 lb.cfg.memory_cap && ltb lb.cfg.memory_cap (length all)
    then take (length all - lb.cfg.memory_cap) all
    else []

abbrev pub taken : Option (List LogEntry) → List (List LogEntry)
taken none = []
taken (some batch) = batch ∷ []

-- One step of some goroutine. Any batch in flight may be the next to return.
pub data Step : System → System → Type 0 where
  added :
      (s : System) (e : LogEntry)
      → Step s (record s {
        buffer = (add_locked e s.buffer).0;
        accepted = if s.buffer.stopped then s.accepted else s.accepted ++ e ∷ [];
      })
  began :
      (s : System)
      → Step s (record s {
        buffer = (begin_flush s.buffer).0;
        in_flight = taken (begin_flush s.buffer).1 ++ s.in_flight;
      })
  succeeded :
      (s : System) (before after : List (List LogEntry)) (batch : List LogEntry)
      → s.in_flight ≡ before ++ batch ∷ after
      → Step s (record s {
        buffer = finish_flush true batch s.buffer;
        in_flight = before ++ after;
        written = s.written ++ batch;
      })
  failed :
      (s : System) (before after : List (List LogEntry)) (batch : List LogEntry)
      → s.in_flight ≡ before ++ batch ∷ after
      → Step s (record s {
        buffer = finish_flush false batch s.buffer;
        in_flight = before ++ after;
        dropped = s.dropped ++ cut_off batch s.buffer;
        failures = s.failures + 1;
      })
  stopping : (s : System) → Step s (record s { buffer = record s.buffer { stopped = true } })

pub data Reach (s : System) : System → Type 0 where
  here : Reach s s
  next : {t u : System} → Reach s t → Step t u → Reach s u

abbrev pub start : LogBufferConfig → System
start cfg = record {
  buffer = new_log_buffer cfg;
  in_flight = [];
  accepted = [];
  written = [];
  dropped = [];
  failures = 0;
}
