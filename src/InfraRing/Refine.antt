-- ===== src/InfraRing/Refine.antt =====
-- The ring holds the last `cap` events that were added since it was last drained.
use rss_lance.Base.{
  ℕ, zero, suc, ◌+◌, ◌-◌, ◌%◌, ◌≤◌, ◌<◌, min, String, List, [], ◌∷◌, ◌++◌, ◌≡◌, refl, ◌∙◌,
  append-nil, append_assoc, if◌then◌else◌, ap, ap₂, sym, ◌≢◌, arith, length, get_or, set, drop, ltb,
  ◌==◌, length-set, length-append, length-replicate, get_or-set_self, get_or-set_ne,
  get_or-append_left, get_or-append_last, drop-step, drop-all, Bool-cases, inl, inr, ==_iff,
}
use rss_lance.Types.{LogEntry, InfraEvent}
use rss_lance.InfraRing.{
  InfraRing, zero_event, ring_of, add, drain, drain_loop, to_entry, new_infra_ring,
}
use rss_lance.Base.Int.{ℤ, pos, negsuc}
use native.Mathlib.Nat.{div-add-mod, mod-add-mod, mod-lt, add-mod_right}

-- Indices less than `c` apart have different residues.
mod-ne : (c j n : ℕ) → j < n → n < j + c → n % c ≢ j % c
mod-ne c j n h k e = grind (arith, div-add-mod j c, div-add-mod n c)

-- `xs` are the events added since the last drain, oldest first.
pub record Holds (r : InfraRing) (xs : List InfraEvent) : Type 0 where
  pub pos_cap : 0 < r.cap
  pub room : length r.events ≡ r.cap
  pub head_at : r.head ≡ length xs % r.cap
  pub counted : r.count ≡ min (length xs) r.cap
  pub slots :
      (j : ℕ)
      → j < length xs
      → length xs ≤ j + r.cap
      → get_or r.events (j % r.cap) zero_event ≡ get_or xs j zero_event

pub ring_of-Holds : (c : ℕ) → 0 < c → Holds (ring_of c) []
ring_of-Holds c h = record {
  pos_cap = h;
  room = length-replicate c zero_event;
  head_at = omega arith;
  counted = omega arith;
  slots = λ j p q. absurd (omega arith);
}

abbrev pub event_of : String → String → ℕ → InfraEvent
event_of level message now = record { timestamp = now; level = level; message = message }

module _ (r : InfraRing) (xs : List InfraEvent) (e : InfraEvent) (v : Holds r xs) where
  slots-add :
      (j : ℕ)
      → j < length xs + 1
      → length xs + 1 ≤ j + r.cap
      → get_or (set r.events r.head e) (j % r.cap) zero_event ≡ get_or (xs ++ e ∷ []) j zero_event
  slots-add j p q = elim (Bool-cases (ltb j (length xs))) [
    | inl before ↦
        let lt : j < length xs = ground arith in
        get_or-set_ne r.events r.head (j % r.cap) e zero_event
          (rw v.head_at (mod-ne r.cap j (length xs) lt (omega arith)))
        ∙ v.slots j lt (omega arith)
        ∙ sym (get_or-append_left xs (e ∷ []) j zero_event lt)
    | inr last ↦
        let eq : j ≡ length xs = ground arith in
        rw (eq, ← v.head_at)
          (get_or-set_self r.events r.head e zero_event
              (rw v.head_at (omega (arith, mod-lt (length xs) v.pos_cap, v.room)))
            ∙ sym (get_or-append_last xs e zero_event))
  ]

-- `add` appends its event to what the ring holds.
pub add-Holds :
    (r : InfraRing) (xs : List InfraEvent) (level message : String) (now : ℕ)
    → Holds r xs
    → Holds (add level message now r) (xs ++ event_of level message now ∷ [])
unfolding add
add-Holds r xs level message now v =
    let e : InfraEvent = event_of level message now in
    record {
      pos_cap = v.pos_cap;
      room = length-set r.events r.head e ∙ v.room;
      head_at = rw (v.head_at, length-append xs (e ∷ [])) (mod-add-mod (length xs) r.cap 1);
      counted = ground (arith, length-append xs (e ∷ []), v.counted);
      slots = λ j p q.
          slots-add r xs e v j (omega (arith, length-append xs (e ∷ [])))
            (omega (arith, length-append xs (e ∷ [])));
    }

-- Entries for a list of events, the first of them made in round `i`.
pub entries : (ℕ → String) → ℕ → List InfraEvent → List LogEntry
entries uuid i [] = []
entries uuid i (e ∷ es) = to_entry e (uuid i) ∷ entries uuid (suc i) es

module _ (r : InfraRing) (uuid : ℕ → String) (xs : List InfraEvent) (v : Holds r xs) where
  -- The slot that round `i` of `drain` reads.
  drain_index : ℕ → ℕ → ℕ
  drain_index start i = (start + i) % r.cap

  drain_loop-entries :
      (start i left : ℕ)
      → left + i ≡ r.count
      → ((k : ℕ) → (start + k) % r.cap ≡ (length xs - r.count + k) % r.cap)
      → drain_loop r uuid start i left ≡ entries uuid i (drop (length xs - r.count + i) xs)
  unfolding drain_loop entries
  drain_loop-entries start i zero h s =
      rw (drop-all (length xs - r.count + i) xs (omega (arith, v.counted)))
  drain_loop-entries start i (suc left) h s =
      rw (drop-step (length xs - r.count + i) xs zero_event (omega (arith, v.counted)), s i)
        (ap₂ ◌∷◌
          (ap (λ e. to_entry e (uuid i))
            (v.slots (length xs - r.count + i) (omega (arith, v.counted))
              (omega (arith, v.counted))))
          (drain_loop-entries start (suc i) left (omega arith) s
            ∙ ap (λ n. entries uuid (suc i) (drop n xs)) {x = length xs - r.count + suc i}
                {y = suc (length xs - r.count + i)} (omega arith)))

  -- Where `drain` starts to read.
  start-mod :
      (k : ℕ)
      → ((if r.count == r.cap then r.head else 0) + k) % r.cap ≡ (length xs - r.count + k) % r.cap
  start-mod k = elim (Bool-cases (r.count == r.cap)) [
    | inl full ↦
        let eq : r.count ≡ r.cap = (==_iff r.count r.cap).0 full in
        let back : length xs - r.cap + k + r.cap ≡ length xs + k = omega (arith, v.counted) in
        rw (full, v.head_at, mod-add-mod, eq, ← back) (add-mod_right (length xs - r.cap + k) r.cap)
    | inr room_left ↦
        let eq : r.count ≢ r.cap = ground arith in
        rw room_left (ap (λ n. n % r.cap) (omega (arith, v.counted)))
  ]

  drain-entries :
      drain_loop r uuid (if r.count == r.cap then r.head else 0) 0 r.count
      ≡ entries uuid 0 (drop (length xs - r.cap) xs)
  drain-entries =
      drain_loop-entries (if r.count == r.cap then r.head else 0) 0 r.count (omega arith) start-mod
      ∙ ap (λ n. entries uuid 0 (drop n xs)) {x = length xs - r.count + 0} {y = length xs - r.cap}
          (omega (arith, v.counted))

-- `drain` returns an entry for each of the last `cap` events, oldest first, and leaves an empty
-- ring.
pub drain_lem :
    (r : InfraRing) (uuid : ℕ → String) (xs : List InfraEvent)
    → Holds r xs
    → ((drain uuid r).0 ≡ entries uuid 0 (drop (length xs - r.cap) xs)) × Holds (drain uuid r).1 []
unfolding drain entries
drain_lem r uuid xs v = elim (Bool-cases (r.count == 0)) [
  | inl empty ↦
      let z : length xs ≡ 0 = omega (arith, v.counted, (==_iff r.count 0).0 empty) in
      rw empty (
        rw (drop-all (length xs - r.cap) xs (omega arith)),
        record {
          pos_cap = v.pos_cap;
          room = v.room;
          head_at = v.head_at ∙ ap (λ n. n % r.cap) z;
          counted = omega (arith, v.counted);
          slots = λ j p q. absurd (omega arith);
        },
      )
  | inr some_left ↦ rw some_left (
    drain-entries r uuid xs v,
    record {
      pos_cap = v.pos_cap;
      room = v.room;
      head_at = omega arith;
      counted = omega arith;
      slots = λ j p q. absurd (omega arith);
    },
  )
]

-- `newInfraRing` makes an empty ring of a capacity above 0, whatever capacity it is asked for.
pub new_infra_ring-Holds : (capacity : ℤ) → Holds (new_infra_ring capacity) []
unfolding new_infra_ring
new_infra_ring-Holds (pos zero) = ring_of-Holds 100 (omega arith)
new_infra_ring-Holds (pos (suc n)) = ring_of-Holds (suc n) (omega arith)
new_infra_ring-Holds (negsuc n) = ring_of-Holds 100 (omega arith)

-- A run of `add` calls.
pub add_all : List InfraEvent → InfraRing → InfraRing
add_all [] r = r
add_all (e ∷ es) r = add_all es (add e.level e.message e.timestamp r)

pub cap-add_all : (es : List InfraEvent) (r : InfraRing) → (add_all es r).cap ≡ r.cap
unfolding add_all add
cap-add_all [] r = refl
cap-add_all (e ∷ es) r = cap-add_all es (add e.level e.message e.timestamp r)

cap-drain : (uuid : ℕ → String) (r : InfraRing) → (drain uuid r).1.cap ≡ r.cap
unfolding drain
cap-drain uuid r = ground arith

pub add_all-Holds :
    (es : List InfraEvent) (r : InfraRing) (xs : List InfraEvent)
    → Holds r xs
    → Holds (add_all es r) (xs ++ es)
unfolding add_all
add_all-Holds [] r xs v = rw append-nil v
add_all-Holds (e ∷ es) r xs v = rw (append_assoc xs (e ∷ []) es) at (
    add_all-Holds es (add e.level e.message e.timestamp r) (xs ++ e ∷ [])
      (add-Holds r xs e.level e.message e.timestamp v))

-- Whatever events `es` are added to a ring that is fresh from `newInfraRing`, a `drain` returns one
-- log entry for each of the last `cap` of them, in the order in which they were added, and a second
-- round of events `fs` is treated likewise: nothing of the first is left over.
pub drain-add_all :
    (capacity : ℤ) (uuid : ℕ → String) (es fs : List InfraEvent)
    → let r = new_infra_ring capacity in
      let (first, r') = drain uuid (add_all es r) in
      (first ≡ entries uuid 0 (drop (length es - r.cap) es))
      × ((drain uuid (add_all fs r')).0 ≡ entries uuid 0 (drop (length fs - r.cap) fs))
drain-add_all capacity uuid es fs =
    let r : InfraRing = new_infra_ring capacity in
    let one =
      drain_lem (add_all es r) uuid es (add_all-Holds es r [] (new_infra_ring-Holds capacity)) in
    let two =
      drain_lem (add_all fs (drain uuid (add_all es r)).1) uuid fs (add_all-Holds fs _ [] one.1) in
    (
      one.0 ∙ ap (λ c. entries uuid 0 (drop (length es - c) es)) (cap-add_all es r),
      two.0
          ∙ ap (λ c. entries uuid 0 (drop (length fs - c) fs))
              (cap-add_all fs (drain uuid (add_all es r)).1
                ∙ cap-drain uuid (add_all es r)
                ∙ cap-add_all es r),
    )
