-- ===== src/StatsHistory.antt =====
-- The runtime statistics of the server, `StatsCollector` of server/api/stats_collector.go. Times are
-- nanoseconds. The formatted timestamp of a snapshot is its second, which is what parsing it gives.
pub mod Window
use rss_lance.Base.{
  ℕ, ◌+◌, ◌-◌, ◌*◌, ◌/◌, ◌%◌, ◌^◌, String, List, [], ◌∷◌, ◌++◌, Bool, true, false, Option, none,
  some, ltb, leb, get_or, if◌then◌else◌,
}
use rss_lance.Store.{Result, ok, failed}

-- What `runtime.ReadMemStats` and `runtime.NumGoroutine` say.
pub record MemStats : Type 0 where
  pub heap_alloc : ℕ
  pub heap_sys : ℕ
  pub stack_in_use : ℕ
  pub goroutines : ℕ
  pub num_gc : ℕ
  pub pause_ns : List ℕ

-- `StatsSnapshot`.
pub record StatsSnapshot : Type 0 where
  pub timestamp : ℕ
  pub heap_alloc : ℕ
  pub heap_sys : ℕ
  pub stack_in_use : ℕ
  pub goroutines : ℕ
  pub gc_pause_ns : ℕ
  pub num_gc : ℕ

-- `StatsCollector`.
pub record StatsCollector : Type 0 where
  pub history : List StatsSnapshot
  pub retention : ℕ
  pub last_num_gc : ℕ

abbrev pub second : ℕ
second = 1000000000

abbrev pub minute : ℕ
minute = 60 * second

-- `NewStatsCollector`.
abbrev pub new_stats_collector : StatsCollector
new_stats_collector = record { history = []; retention = 60 * minute; last_num_gc = 0 }

-- The formatted time has no fraction of a second.
abbrev pub second_of : ℕ → ℕ
second_of now = now / second * second

-- The latest entry of the ring of 256 pauses.
abbrev latest_pause : MemStats → ℕ
latest_pause ms =
    if ltb 0 ms.num_gc then get_or ms.pause_ns ((ms.num_gc + 255) % 2 ^ 32 % 256) 0 else 0

abbrev pub snapshot_of : ℕ → MemStats → StatsSnapshot
snapshot_of now ms = record {
  timestamp = second_of now;
  heap_alloc = ms.heap_alloc;
  heap_sys = ms.heap_sys;
  stack_in_use = ms.stack_in_use;
  goroutines = ms.goroutines;
  gc_pause_ns = latest_pause ms;
  num_gc = ms.num_gc;
}

-- The loop that moves `trimIdx`, and the slice from there.
unfoldable pub trim : ℕ → List StatsSnapshot → List StatsSnapshot
trim cutoff [] = []
trim cutoff (s ∷ history) = if ltb cutoff s.timestamp then s ∷ history else trim cutoff history

-- `sample`, at `now`; the cutoff is taken at `later`. The clock is past the retention, which is counted
-- from 1970.
unfoldable pub sample : ℕ → ℕ → MemStats → StatsCollector → StatsCollector
unfolding trim
sample now later ms sc = record sc {
  history = trim (later - sc.retention) (sc.history ++ snapshot_of now ms ∷ []);
  last_num_gc = ms.num_gc;
}

-- `refreshRetention`, given what the settings hold. `whole_minutes` stands for json.Unmarshal into a
-- float64: the whole part of the number, 0 where it is less than 1, and none where it is no number.
-- Numbers too large for a time.Duration are left out.
unfoldable pub refresh_retention :
    (String → Option ℕ) → Result (Option String) → StatsCollector → StatsCollector
refresh_retention whole_minutes failed sc = sc
refresh_retention whole_minutes (ok none) sc = sc
refresh_retention whole_minutes (ok (some v)) sc = retain (whole_minutes v)
  where
    retain : Option ℕ → StatsCollector
    retain none = sc
    retain (some minutes) = if leb 1 minutes then record sc { retention = minutes * minute } else sc
