-- ===== src/Tests/Outside.antt =====
-- The sidecar, the logger of the API server, the debug categories and the runtime statistics.
use rss_lance.Base.{
  ◌-◌, ◌*◌, String, List, [], ◌∷◌, ◌++◌, Bool, true, false, not, ◌&&◌, ◌||◌, none, some, ◌≡◌, refl,
  arith, map, keep_if, ◌=str◌, if◌then◌else◌,
}
use Prim.Native.String.{◌++◌ as append}
use rss_lance.Base.Assoc.{Assoc, lookup, IsMap}
use rss_lance.Process.{Sidecar, Process, Response}
use rss_lance.Store.{ok}
use rss_lance.ServerLogger.{reload_settings, should_log, new_server_logger}
use rss_lance.ServerLogger.Enabled.{reads_as, should_log-reload_settings}
use rss_lance.DebugFlags.{parse}
use rss_lance.DebugFlags.Active.{any_asks, parse_lem}
use rss_lance.StatsHistory.{
  MemStats, StatsCollector, new_stats_collector, sample, second, second_of, snapshot_of,
}
use rss_lance.StatsHistory.Window.{newer, Ordered, UpTo, sample-history}

-- The world says whether the process answers: it does from its start on.
abbrev answer : Response
answer = record { ok = true; error = "" }

abbrev fragile : Sidecar
fragile = record {
  World = Bool;
  Line = String;
  launch = λ up. (true, true);
  ready = λ up. (up, up);
  exchange = λ cmd up. (if up then some answer else none, up);
  stop = λ up. false;
}

-- The process has died, and nobody has noticed yet.
abbrev crashed : Process fragile
crashed = record { alive = true; world = false; log = [] }

abbrev settings : Assoc String
settings = ("log.api.enabled", "true") ∷ ("log.api.requests", "1") ∷ ("theme", "dark") ∷ []

settings-IsMap : IsMap settings
unfolding lookup
settings-IsMap = (refl, (refl, (refl, tt)))

should_log-reload_settings_example :
    should_log "requests" (reload_settings (ok settings) new_server_logger) ≡ (
      reads_as true (lookup "log.api.enabled" settings)
      && reads_as false (lookup (append "log.api." "requests") settings))
should_log-reload_settings_example =
    should_log-reload_settings "requests" settings new_server_logger settings-IsMap

abbrev two_words : String → List String
two_words s = "all" ∷ "bogus" ∷ []

parse_lem_example : parse two_words (λ tok. tok) "all,bogus" (λ d. false) "lance" ≡ (
    false
    || (not ("all,bogus" =str "") && any_asks "lance" (map (λ tok. tok) (two_words "all,bogus"))))
parse_lem_example = parse_lem two_words (λ tok. tok) "all,bogus" "lance" (λ d. false)

abbrev mem : MemStats
mem = record {
  heap_alloc = 10;
  heap_sys = 20;
  stack_in_use = 3;
  goroutines = 4;
  num_gc = 1;
  pause_ns = 7 ∷ [];
}

-- Two snapshots, the older one past the retention of an hour.
abbrev collector : StatsCollector
collector = record new_stats_collector {
  history = snapshot_of (10 * second) mem ∷ snapshot_of (4000 * second) mem ∷ [];
}

collector-Ordered : Ordered collector.history
collector-Ordered = ((omega arith, tt), (tt, tt))

collector-UpTo : UpTo (second_of (4005 * second)) collector.history
collector-UpTo = (omega arith, (omega arith, tt))

sample-history_example :
    ((sample (4005 * second) (4005 * second) mem collector).history
      ≡ keep_if
          (newer (4005 * second - collector.retention))
          (collector.history ++ snapshot_of (4005 * second) mem ∷ []))
    × Ordered (sample (4005 * second) (4005 * second) mem collector).history
    × UpTo
        (second_of (4005 * second))
        (sample (4005 * second) (4005 * second) mem collector).history
sample-history_example =
    sample-history (4005 * second) (4005 * second) mem collector collector-Ordered collector-UpTo
