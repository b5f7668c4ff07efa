-- ===== src/Config/LogBufferSettings.antt =====
-- The log buffer that a settings table makes.
use rss_lance.Base.{
  ℕ, zero, suc, ◌<◌, String, Option, none, some, ◌≡◌, refl, arith, ◌==◌, ◌=str◌, if◌then◌else◌,
}
use rss_lance.Base.Assoc.{Assoc, lookup}
use rss_lance.Base.Int.{ℤ, pos, negsuc}
use rss_lance.LogBuffer.{new_log_buffer}
use rss_lance.Config.{int_or, setting_int, value_or, load_log_buffer_config}

module _ (trim_quotes : String → String) (atoi : String → Option ℤ) where
  -- The number that a setting holds, if it holds one.
  abbrev pub number_in : Option String → Option ℤ
  number_in none = none
  number_in (some v) = if v =str "" then none else atoi (trim_quotes v)

-- A number above 0 counts, anything else leaves the default.
abbrev pub positive_or : ℕ → Option ℤ → ℕ
positive_or def none = def
positive_or def (some (negsuc n)) = def
positive_or def (some (pos zero)) = def
positive_or def (some (pos (suc n))) = suc n

positive_or_pos : (def : ℕ) (n : Option ℤ) → 0 < def → 0 < positive_or def n
positive_or_pos def none h = h
positive_or_pos def (some (negsuc n)) h = h
positive_or_pos def (some (pos zero)) h = h
positive_or_pos def (some (pos (suc n))) h = omega arith

-- What `newLogBuffer` makes of an integer setting.
repaired :
    (def : ℕ) (n : Option ℤ)
    → 0 < def
    → (if int_or def n == 0 then def else int_or def n) ≡ positive_or def n
unfolding int_or
repaired def none h = ground arith
repaired def (some (negsuc n)) h = ground arith
repaired def (some (pos zero)) h = refl
repaired def (some (pos (suc n))) h = ground arith

value_or_lem :
    (trim_quotes : String → String) (atoi : String → Option ℤ) (def : ℕ) (o : Option String)
    → value_or trim_quotes atoi def o ≡ int_or def (number_in trim_quotes atoi o)
unfolding value_or
value_or_lem trim_quotes atoi def none = refl
value_or_lem trim_quotes atoi def (some v) = ground arith

module _ (trim_quotes : String → String) (atoi : String → Option ℤ) (settings : Assoc String) where
  abbrev pub effective : ℕ → String → ℕ
  effective def key = positive_or def (number_in trim_quotes atoi (lookup key settings))

  checked :
      (def : ℕ) (key : String)
      → 0 < def
      → let n = setting_int trim_quotes atoi settings key def in
        ((if n == 0 then def else n) ≡ effective def key) × (0 < (if n == 0 then def else n))
  unfolding setting_int
  checked def key h =
      let o = number_in trim_quotes atoi (lookup key settings) in
      rw (value_or_lem trim_quotes atoi def (lookup key settings), repaired def o h)
        (refl, positive_or_pos def o h)

  -- Whatever the settings table holds, the log buffer that the store makes of it works with the numbers
  -- in "log_buffer.flush_threshold", "log_buffer.flush_interval_secs" and "log_buffer.memory_cap" where
  -- these parse to a number above 0, and with 20, 30 and 100000 where they do not; none of the
  -- three is 0, so the threshold, the timer and the cap are always in force.
  pub new_log_buffer-load_log_buffer_config :
      let cfg = (new_log_buffer (load_log_buffer_config trim_quotes atoi settings)).cfg in
      (cfg.flush_threshold ≡ effective 20 "log_buffer.flush_threshold")
      × (cfg.flush_interval_secs ≡ effective 30 "log_buffer.flush_interval_secs")
      × (cfg.memory_cap ≡ effective 100000 "log_buffer.memory_cap")
      × (0 < cfg.flush_threshold)
      × (0 < cfg.flush_interval_secs)
      × (0 < cfg.memory_cap)
  unfolding new_log_buffer load_log_buffer_config
  new_log_buffer-load_log_buffer_config =
      let threshold = checked 20 "log_buffer.flush_threshold" (omega arith) in
      let interval = checked 30 "log_buffer.flush_interval_secs" (omega arith) in
      let cap = checked 100000 "log_buffer.memory_cap" (omega arith) in
      (threshold.0, interval.0, cap.0, threshold.1, interval.1, cap.1)
