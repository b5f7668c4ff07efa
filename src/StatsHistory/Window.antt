-- ===== src/StatsHistory/Window.antt =====
-- The snapshots that the collector keeps.
use rss_lance.Base.{
  ℕ, ◌-◌, ◌≤◌, ◌<◌, List, [], ◌∷◌, ◌++◌, Bool, ◌≡◌, refl, sym, ap, arith, ltb, ltb→lt, keep_if, All,
  Bool-cases, inl, inr,
}
use rss_lance.StatsHistory.{
  MemStats, StatsSnapshot, StatsCollector, second_of, snapshot_of, trim, sample,
}

abbrev pub newer : ℕ → StatsSnapshot → Bool
newer cutoff s = ltb cutoff s.timestamp

-- Oldest first.
abbrev pub Ordered : List StatsSnapshot → Type 0
Ordered [] = Unit
Ordered (s ∷ history) =
    All (λ (t : StatsSnapshot). s.timestamp ≤ t.timestamp) history × Ordered history

-- No snapshot is of a later second.
abbrev pub UpTo : ℕ → List StatsSnapshot → Type 0
UpTo time = All (λ (t : StatsSnapshot). t.timestamp ≤ time)

keep_if-newer :
    (cutoff : ℕ) (s : StatsSnapshot) (history : List StatsSnapshot)
    → cutoff < s.timestamp
    → All (λ (t : StatsSnapshot). s.timestamp ≤ t.timestamp) history
    → keep_if (newer cutoff) history ≡ history
keep_if-newer cutoff s [] later h = refl
keep_if-newer cutoff s (t ∷ history) later h =
    ground (arith, keep_if-newer cutoff s history later h.1, h.0)

trim_lem :
    (cutoff : ℕ) (history : List StatsSnapshot)
    → Ordered history
    → trim cutoff history ≡ keep_if (newer cutoff) history
unfolding trim
trim_lem cutoff [] h = refl
trim_lem cutoff (s ∷ history) h = elim (Bool-cases (ltb cutoff s.timestamp)) [
  | inl e ↦ rw e (ap (λ l. s ∷ l) (sym (keep_if-newer cutoff s history (ltb→lt _ _ e) h.0)))
  | inr e ↦ rw e (trim_lem cutoff history h.1)
]

Ordered-trim :
    (cutoff : ℕ) (history : List StatsSnapshot) → Ordered history → Ordered (trim cutoff history)
unfolding trim
Ordered-trim cutoff [] h = tt
Ordered-trim cutoff (s ∷ history) h = elim (Bool-cases (ltb cutoff s.timestamp)) [
  | inl e ↦ rw e h
  | inr e ↦ rw e (Ordered-trim cutoff history h.1)
]

UpTo-trim :
    (cutoff time : ℕ) (history : List StatsSnapshot)
    → UpTo time history
    → UpTo time (trim cutoff history)
unfolding trim
UpTo-trim cutoff time [] h = tt
UpTo-trim cutoff time (s ∷ history) h = elim (Bool-cases (ltb cutoff s.timestamp)) [
  | inl e ↦ rw e h
  | inr e ↦ rw e (UpTo-trim cutoff time history h.1)
]

All-append_one {ℓ} :
    (P : StatsSnapshot → Type ℓ) (history : List StatsSnapshot) (s : StatsSnapshot)
    → All P history
    → P s
    → All P (history ++ s ∷ [])
All-append_one P [] s h p = (p, tt)
All-append_one P (t ∷ history) s h p = (h.0, All-append_one P history s h.1 p)

Ordered-append_one :
    (history : List StatsSnapshot) (s : StatsSnapshot)
    → Ordered history
    → UpTo s.timestamp history
    → Ordered (history ++ s ∷ [])
Ordered-append_one [] s h u = (tt, tt)
Ordered-append_one (t ∷ history) s h u = (
  All-append_one (λ r. t.timestamp ≤ r.timestamp) history s h.0 u.0,
  Ordered-append_one history s h.1 u.1,
)

-- `sample` on a history that is ordered and of no later second than the clock's: what it keeps is what
-- is newer than the retention allows, of the history and the new snapshot, in order; and the history
-- is again ordered and of no later second.
pub sample-history :
    (now later : ℕ) (ms : MemStats) (sc : StatsCollector)
    → Ordered sc.history
    → UpTo (second_of now) sc.history
    → ((sample now later ms sc).history
        ≡ keep_if (newer (later - sc.retention)) (sc.history ++ snapshot_of now ms ∷ []))
      × Ordered (sample now later ms sc).history
      × UpTo (second_of now) (sample now later ms sc).history
unfolding sample
sample-history now later ms sc h u =
    let ordered = Ordered-append_one sc.history (snapshot_of now ms) h u in
    (
      trim_lem _ _ ordered,
      Ordered-trim _ _ ordered,
      UpTo-trim _ _ _ (
          All-append_one (λ r. r.timestamp ≤ second_of now) sc.history (snapshot_of now ms) u
            (omega arith)),
    )
