-- ===== src/InfraRing.antt =====
-- The ring of storage events, server/db/infra_events.go. The lock makes each method one step, so a
-- method is a function on the ring.
pub mod Refine
use rss_lance.Base.{
  ℕ, zero, suc, ◌+◌, ◌%◌, String, List, [], ◌∷◌, some, ltb, ◌==◌, if◌then◌else◌, get_or, set,
  replicate,
}
use rss_lance.Base.Int.{ℤ, pos, negsuc}
use rss_lance.Types.{LogEntry, InfraEvent}

pub record InfraRing : Type 0 where
  pub events : List InfraEvent
  pub head : ℕ
  pub count : ℕ
  pub cap : ℕ

-- Go's zero value of an event, which fills a fresh ring.
abbrev pub zero_event : InfraEvent
zero_event = record { timestamp = 0; level = ""; message = "" }

abbrev pub ring_of : ℕ → InfraRing
ring_of capacity = record {
  events = replicate capacity zero_event;
  head = 0;
  count = 0;
  cap = capacity;
}

-- `newInfraRing`.
unfoldable pub new_infra_ring : ℤ → InfraRing
new_infra_ring (pos zero) = ring_of 100
new_infra_ring (pos (suc n)) = ring_of (suc n)
new_infra_ring (negsuc n) = ring_of 100

-- `add`, of an event made at the time `now`.
unfoldable pub add : String → String → ℕ → InfraRing → InfraRing
add level message now r = record {
  events = set r.events r.head (record { timestamp = now; level = level; message = message });
  head = (r.head + 1) % r.cap;
  count = if ltb r.count r.cap then r.count + 1 else r.count;
  cap = r.cap;
}

-- The log entry that `drain` makes of an event, with the UUID drawn for it.
abbrev pub to_entry : InfraEvent → String → LogEntry
to_entry e uuid = record {
  log_id = uuid;
  timestamp = some e.timestamp;
  level = e.level;
  category = "storage_events";
  service = "";
  message = e.message;
  details = "";
  created_at = some e.timestamp;
}

-- The loop of `drain`: `left` rounds from `i` on. `uuid i` is what `infraUUID` returns in round i.
unfoldable pub drain_loop : InfraRing → (ℕ → String) → ℕ → ℕ → ℕ → List LogEntry
drain_loop r uuid start i zero = []
drain_loop r uuid start i (suc left) =
    to_entry (get_or r.events ((start + i) % r.cap) zero_event) (uuid i)
    ∷ drain_loop r uuid start (suc i) left

-- `drain`.
unfoldable pub drain : (ℕ → String) → InfraRing → List LogEntry × InfraRing
unfolding drain_loop
drain uuid r = if r.count == 0 then ([], r) else (
  drain_loop r uuid (if r.count == r.cap then r.head else 0) 0 r.count,
  record r { head = 0; count = 0 },
)

-- `pending`.
unfoldable pub pending : InfraRing → ℕ
pending r = r.count
