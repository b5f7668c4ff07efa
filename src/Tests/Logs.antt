-- ===== src/Tests/Logs.antt =====
-- Log entries on their way: through the ring, the buffer, and the tiers.
use rss_lance.Base.{
  ℕ, ◌+◌, ◌-◌, ◌≤◌, String, List, [], ◌∷◌, ◌++◌, Bool, true, false, ◌≡◌, refl, arith, length, drop,
  if◌then◌else◌,
}
use rss_lance.Base.Int.{pos}
use rss_lance.Types.{InfraEvent, LogEntry}
use rss_lance.InfraRing
use rss_lance.InfraRing.{InfraRing, new_infra_ring}
use rss_lance.InfraRing.Refine.{entries, add_all, drain-add_all}
use rss_lance.LogBuffer.{
  default_log_buffer_config, new_log_buffer, add_locked, begin_flush, finish_flush,
}
use rss_lance.LogBuffer.Steps.{System, Reach, here, next, added, began, failed, start}
use rss_lance.LogBuffer.NoLoss.{count_if, flying, no_entry_lost}
use rss_lance.LogBuffer.Timer.{timer_armed, add_locked_all, timer_not_set_again}
use rss_lance.LogBuffer.Order.{Sink, adding, flushing, closing, run, run_in_order}
use rss_lance.Tests.Data.{entry}

abbrev event : ℕ → String → InfraEvent
event t message = record { timestamp = t; level = "info"; message = message }

abbrev uuid : ℕ → String
uuid n = "id"

-- A ring of two keeps the last two of three.
drain-add_all_example :
    let es = event 1 "a" ∷ event 2 "b" ∷ event 3 "c" ∷ [] in
    let fs = event 4 "d" ∷ [] in
    let r = new_infra_ring (pos 2) in
    let (first, r') = InfraRing.drain uuid (add_all es r) in
    (first ≡ entries uuid 0 (drop (length es - r.cap) es))
    × ((InfraRing.drain uuid (add_all fs r')).0 ≡ entries uuid 0 (drop (length fs - r.cap) fs))
drain-add_all_example =
    drain-add_all (pos 2) uuid (event 1 "a" ∷ event 2 "b" ∷ event 3 "c" ∷ []) (event 4 "d" ∷ [])

-- Three entries, the flush of the first two fails.
abbrev one_added : System
one_added = record (start default_log_buffer_config) {
  buffer = (add_locked (entry "1") (new_log_buffer default_log_buffer_config)).0;
  accepted = entry "1" ∷ [];
}

one_added-Reach : Reach (start default_log_buffer_config) one_added
unfolding new_log_buffer
one_added-Reach = next here (added (start default_log_buffer_config) (entry "1"))

timer_armed_example : one_added.buffer.timer ≡ true
unfolding new_log_buffer add_locked
timer_armed_example =
    timer_armed default_log_buffer_config one_added-Reach refl (λ e. ground (arith, e))

abbrev flying_one : System
flying_one = record one_added {
  buffer = (begin_flush one_added.buffer).0;
  in_flight = (entry "1" ∷ []) ∷ [];
}

flying_one-Reach : Reach (start default_log_buffer_config) flying_one
unfolding new_log_buffer add_locked begin_flush
flying_one-Reach = next one_added-Reach (began one_added)

abbrev failed_one : System
failed_one = record flying_one {
  buffer = finish_flush false (entry "1" ∷ []) flying_one.buffer;
  in_flight = [];
  failures = 1;
}

failed_one-Reach : Reach (start default_log_buffer_config) failed_one
unfolding new_log_buffer add_locked begin_flush
failed_one-Reach = next flying_one-Reach (failed flying_one [] [] (entry "1" ∷ []) refl)

no_entry_lost_example :
    (count_if (λ e. true) failed_one.accepted
      ≡ count_if (λ e. true) failed_one.written
        + flying (λ e. true) failed_one.in_flight
        + count_if (λ e. true) failed_one.buffer.entries
        + count_if (λ e. true) failed_one.dropped)
    × (length failed_one.accepted ≤ (new_log_buffer default_log_buffer_config).cfg.memory_cap
        → failed_one.dropped ≡ [])
no_entry_lost_example =
    no_entry_lost default_log_buffer_config failed_one failed_one-Reach (λ e. true)

timer_not_set_again_example :
    let lb' =
      add_locked_all
        (entry "2" ∷ [])
        (finish_flush false (entry "1" ∷ []) (begin_flush one_added.buffer).0) in
    (lb'.timer ≡ false) × (1 ≤ length lb'.entries)
unfolding new_log_buffer add_locked
timer_not_set_again_example =
    timer_not_set_again one_added.buffer (entry "1") [] (entry "2" ∷ []) refl

abbrev sink_write : List LogEntry → Bool × List LogEntry → Bool × (Bool × List LogEntry)
sink_write batch w = if w.0 then (true, (true, w.1 ++ batch)) else (false, (true, w.1))

list_sink-written :
    (batch : List LogEntry) (w : Bool × List LogEntry)
    → (sink_write batch w).1.1 ≡ (if (sink_write batch w).0 then w.1 ++ batch else w.1)
list_sink-written batch (true, log) = refl
list_sink-written batch (false, log) = refl

-- A sink that is down for its first call.
abbrev list_sink : Sink
list_sink = record {
  World = Bool × List LogEntry;
  write = sink_write;
  log = λ w. w.1;
  written = list_sink-written;
}

run_in_order_example :
    let (lb', w') =
      run list_sink
        (adding (entry "1") ∷ flushing ∷ adding (entry "2") ∷ closing ∷ adding (entry "3") ∷ [])
        (new_log_buffer default_log_buffer_config, (false, [])) in
    w'.1 ++ lb'.entries ≡ entry "1" ∷ entry "2" ∷ []
unfolding new_log_buffer
run_in_order_example =
    run_in_order list_sink
      (adding (entry "1") ∷ flushing ∷ adding (entry "2") ∷ closing ∷ adding (entry "3") ∷ [])
      (new_log_buffer default_log_buffer_config) (false, []) (omega arith)
