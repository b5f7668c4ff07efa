-- ===== src/LogBuffer/Timer.antt =====
-- The flush timer of the log buffer: when it is set, and when it no longer is.
use rss_lance.Base.{
  ◌-◌, List, [], ◌∷◌, ◌++◌, true, false, ◌≡◌, ◌≢◌, refl, arith, length, length-append, length-drop,
  ◌<◌, ◌≤◌,
}
use rss_lance.Types.{LogEntry}
use rss_lance.LogBuffer.{
  LogBuffer, LogBufferConfig, add_locked, begin_flush, finish_flush, new_log_buffer,
}
use rss_lance.LogBuffer.Steps.{
  System, Step, added, began, succeeded, failed, stopping, Reach, here, next, start,
}

-- While no flush has failed, a buffer that holds entries has its timer set.
record IsArmed (s : System) : Type 0 where
  interval : 0 < s.buffer.cfg.flush_interval_secs
  armed : s.failures ≡ 0 → s.buffer.entries ≢ [] → s.buffer.timer ≡ true

added-armed :
    (e : LogEntry) (lb : LogBuffer)
    → 0 < lb.cfg.flush_interval_secs
    → (lb.entries ≢ [] → lb.timer ≡ true)
    → (add_locked e lb).0.entries ≢ []
    → (add_locked e lb).0.timer ≡ true
unfolding add_locked
added-armed e lb i h ne = go lb.entries refl
  where
    go : (xs : List LogEntry) → lb.entries ≡ xs → (add_locked e lb).0.timer ≡ true
    go [] eq = ground arith
    go (x ∷ xs) eq = ground (arith, h (λ z. cc))

interval-add_locked :
    (e : LogEntry) (lb : LogBuffer)
    → (add_locked e lb).0.cfg.flush_interval_secs ≡ lb.cfg.flush_interval_secs
unfolding add_locked
interval-add_locked e lb = ground arith

Step-IsArmed : {s t : System} → Step s t → IsArmed s → IsArmed t
Step-IsArmed (added s e) h = record {
  interval = omega (arith, interval-add_locked e s.buffer, h.interval);
  armed = λ z. added-armed e s.buffer h.interval (h.armed z);
}
Step-IsArmed (began s) h = record {
  interval = unfold begin_flush in h.interval;
  armed = λ z ne. unfold begin_flush in absurd (ne refl);
}
Step-IsArmed (succeeded s before after batch e) h = record {
  interval = unfold finish_flush in h.interval;
  armed = unfold finish_flush in h.armed;
}
Step-IsArmed (failed s before after batch e) h = record {
  interval = unfold finish_flush in h.interval;
  armed = λ z. absurd (omega arith);
}
Step-IsArmed (stopping s) h = record { interval = h.interval; armed = h.armed }

start-IsArmed : (cfg : LogBufferConfig) → IsArmed (start cfg)
unfolding new_log_buffer
start-IsArmed cfg = record { interval = ground arith; armed = λ z ne. absurd (ne refl) }

-- In every state that concurrent calls can reach with no failed flush, a buffer that holds entries
-- has its flush timer set, so that they are flushed in the end.
pub timer_armed :
    (cfg : LogBufferConfig) {s : System}
    → Reach (start cfg) s
    → s.failures ≡ 0
    → s.buffer.entries ≢ []
    → s.buffer.timer ≡ true
timer_armed cfg r = (go r).armed
  where
    go : {s : System} → Reach (start cfg) s → IsArmed s
    go here = start-IsArmed cfg
    go (next r st) = Step-IsArmed st (go r)

-- A run of the locked parts of `add`, none of which reaches the threshold.
pub add_locked_all : List LogEntry → LogBuffer → LogBuffer
add_locked_all [] lb = lb
add_locked_all (e ∷ es) lb = add_locked_all es (add_locked e lb).0

add_locked-off :
    (e : LogEntry) (lb : LogBuffer)
    → lb.timer ≡ false
    → 1 ≤ length lb.entries
    → ((add_locked e lb).0.timer ≡ false) × (1 ≤ length (add_locked e lb).0.entries)
unfolding add_locked
add_locked-off e lb t n = ground (arith, length-append lb.entries (e ∷ []))

add_locked_all-off :
    (es : List LogEntry) (lb : LogBuffer)
    → lb.timer ≡ false
    → 1 ≤ length lb.entries
    → ((add_locked_all es lb).timer ≡ false) × (1 ≤ length (add_locked_all es lb).entries)
unfolding add_locked_all
add_locked_all-off [] lb t n = (t, n)
add_locked_all-off (e ∷ es) lb t n =
    let (t', n') = add_locked-off e lb t n in add_locked_all-off es (add_locked e lb).0 t' n'

finish_flush-length :
    (e : LogEntry) (es : List LogEntry) (lb : LogBuffer)
    → 1 ≤ length (finish_flush false (e ∷ es) lb).entries
unfolding finish_flush
finish_flush-length e es lb =
    let all : List LogEntry = e ∷ (es ++ lb.entries) in
    ground (arith, length-drop (length all - lb.cfg.memory_cap) all)

-- A flush of one or more entries that fails leaves the buffer with entries and with no timer, and
-- however many entries are then added (short of a flush by the threshold), no timer is set again.
pub timer_not_set_again :
    (lb : LogBuffer) (e : LogEntry) (es more : List LogEntry)
    → lb.entries ≡ e ∷ es
    → let lb' = add_locked_all more (finish_flush false (e ∷ es) (begin_flush lb).0) in
      (lb'.timer ≡ false) × (1 ≤ length lb'.entries)
unfolding begin_flush
timer_not_set_again lb e es more h =
    add_locked_all-off more
      (finish_flush false (e ∷ es) (record lb { entries = []; timer = false }))
      (unfold finish_flush in refl)
      (finish_flush-length e es (record lb { entries = []; timer = false }))
