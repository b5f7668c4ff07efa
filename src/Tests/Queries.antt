-- ===== src/Tests/Queries.antt =====
-- The DuckDB process, the text of its filters, and the settings of the log buffer.
use rss_lance.Base.{
  ℕ, map, suc, String, List, [], ◌∷◌, ◌++◌, Bool, true, false, Option, none, some, ◌≡◌, refl, ◌<◌,
  ◌=str◌, if◌then◌else◌,
}
use rss_lance.Base.Assoc.{Assoc}
use rss_lance.Base.Int.{ℤ, pos, negsuc}
use rss_lance.DuckProcess.{Row, Engine, DuckProcess, with_sentinel, is_sentinel_result}
use rss_lance.DuckProcess.Frames.{read_loop, stdout_failed}
use rss_lance.DuckProcess.Frames.Documents.{
  raw, literal, plain, done, letters, print, document, IsLine, last, concat_lines,
}
use rss_lance.DuckProcess.Frames.Delivery.{Printed, stream, result_of, read_loop-stream}
use rss_lance.DuckProcess.Calls.{Call, asking, executing, calls}
use rss_lance.DuckProcess.Sentinel.{InOrder, InSync, answers, calls-answers}
use rss_lance.LogBuffer.{new_log_buffer}
use rss_lance.Config.{load_log_buffer_config}
use rss_lance.Config.LogBufferSettings.{effective, new_log_buffer-load_log_buffer_config}
use rss_lance.Sql.{codes, build_id_filter}
use rss_lance.Sql.Literals.{read_filter, read_filter-build_id_filter}

abbrev a_row : List Row
a_row = (("v", "x") ∷ []) ∷ []

abbrev sentinel_row : List Row
sentinel_row = (("_s", "__SENTINEL__") ∷ []) ∷ []

-- A database that counts the statements it ran, and does not know "bad".
reply : String → ℕ → Option (List Row) × ℕ
reply text n =
    let bad = text =str with_sentinel "bad;" in
    (if bad then none else some a_row, if bad then n else suc n)

prints : Option (List Row) → List (List Row)
prints none = sentinel_row ∷ []
prints (some result) = result ∷ sentinel_row ∷ []

take_first : ℕ → List (List Row) → Option (List Row) × (ℕ × List (List Row))
take_first n [] = (none, (n, []))
take_first n (result ∷ more) = (some result, (n, more))

abbrev counting : Engine
counting = record {
  World = ℕ × List (List Row);
  available = λ w. true;
  spawn = λ w. (true, w);
  drain_results = λ w. (w.0, []);
  send = λ text w. let (r, n) = reply text w.0 in (true, (n, w.1 ++ prints r));
  receive = λ w. take_first w.0 w.1;
  stop = λ w. w;
  trim_space = λ text. text;
}

own_rows_if :
    (b : Bool) (n : ℕ) (result : List Row)
    → (if b then none else some a_row) ≡ some result
    → is_sentinel_result result ≡ false
unfolding is_sentinel_result
own_rows_if true n result h = cc
own_rows_if false n result h = let same : a_row ≡ result = cc in rw⁻¹ same refl

own_rows :
    (text : String) (n : ℕ) (result : List Row)
    → (reply text n).0 ≡ some result
    → is_sentinel_result result ≡ false
unfolding reply
own_rows text n result h = own_rows_if _ n result h

received :
    (w : ℕ × List (List Row)) (result : List Row) (more : List (List Row))
    → w.1 ≡ result ∷ more
    → (take_first w.0 w.1).0 ≡ some result
unfolding take_first
received (n, ch) result more h = rw h

taken :
    (w : ℕ × List (List Row)) (result : List Row) (more : List (List Row))
    → w.1 ≡ result ∷ more
    → (take_first w.0 w.1).1.1 ≡ more
unfolding take_first
taken (n, ch) result more h = rw h

kept : (n : ℕ) (ch : List (List Row)) → (take_first n ch).1.0 ≡ n
unfolding take_first
kept n [] = refl
kept n (r ∷ ch) = refl

counting-InOrder : InOrder counting
unfolding prints
counting-InOrder = record {
  Database = ℕ;
  database = λ w. w.0;
  channel = λ w. w.1;
  run = λ sql n. reply (with_sentinel sql) n;
  own_rows = λ sql db result h. own_rows (with_sentinel sql) db result h;
  sentinel = sentinel_row;
  sentinel_row = unfold is_sentinel_result in refl;
  sent = λ sql w. refl;
  ran = λ sql w. refl;
  printed = λ sql w result h. rw h;
  printed_failed = λ sql w h. rw h;
  received = received;
  taken = taken;
  kept = λ w. kept w.0 w.1;
}

abbrev idle : DuckProcess counting
idle = record {
  alive = true;
  stopped_for_upgrade = false;
  duckdb_version = "";
  lance_version = "";
  world = (0, []);
  log = [];
}

abbrev some_calls : List Call
some_calls = asking "SELECT 1" ∷ asking "bad" ∷ executing "DELETE" ∷ asking "SELECT 2;" ∷ []

calls-answers_example :
    ((calls "" some_calls idle).0
      ≡ answers counting-InOrder some_calls (counting-InOrder.database idle.world))
    × InSync counting-InOrder (calls "" some_calls idle).1
unfolding counting-InOrder
calls-answers_example =
    calls-answers counting-InOrder "" some_calls idle
      (record { alive = refl; going = refl; empty = refl })

-- Two ids, one with a quote and a comma in it.
read_filter-build_id_filter_example :
    read_filter 2 (build_id_filter (codes "a'b, c" ∷ codes "d" ∷ []))
    ≡ some (codes "a'b, c" ∷ codes "d" ∷ [], codes ")")
read_filter-build_id_filter_example = read_filter-build_id_filter (codes "a'b, c") (codes "d" ∷ [])

-- strconv.Atoi on the texts of these settings.
atoi : String → Option ℤ
atoi text = if text =str "5" then some (pos 5) else if text =str "-1" then some (negsuc 0) else none

abbrev settings : Assoc String
settings = ("log_buffer.flush_threshold", "5") ∷ ("log_buffer.memory_cap", "-1") ∷ []

new_log_buffer-load_log_buffer_config_example :
    let cfg = (new_log_buffer (load_log_buffer_config (λ t. t) atoi settings)).cfg in
    (cfg.flush_threshold ≡ effective (λ t. t) atoi settings 20 "log_buffer.flush_threshold")
    × (cfg.flush_interval_secs
        ≡ effective (λ t. t) atoi settings 30 "log_buffer.flush_interval_secs")
    × (cfg.memory_cap ≡ effective (λ t. t) atoi settings 100000 "log_buffer.memory_cap")
    × (0 < cfg.flush_threshold)
    × (0 < cfg.flush_interval_secs)
    × (0 < cfg.memory_cap)
new_log_buffer-load_log_buffer_config_example =
    new_log_buffer-load_log_buffer_config (λ t. t) atoi settings

-- Two results: `["]",` with `1]` on the next line, and `[]`.
abbrev two_lines : Printed
two_lines = record {
  body =
      literal (raw 93 refl refl ∷ [])
        (plain 44 refl refl refl (plain 10 refl refl refl (plain 49 refl refl refl done)));
  lines = (91 ∷ 34 ∷ 93 ∷ 34 ∷ 44 ∷ 10 ∷ []) ∷ (49 ∷ 93 ∷ 10 ∷ []) ∷ [];
  are_lines = unfold IsLine last in (refl, (refl, tt));
  in_lines = unfold concat_lines document print letters in refl;
}

abbrev one_line : Printed
one_line = record {
  body = done;
  lines = (91 ∷ 93 ∷ 10 ∷ []) ∷ [];
  are_lines = unfold IsLine last in (refl, tt);
  in_lines = unfold concat_lines document print letters in refl;
}

read_loop-stream_example :
    read_loop (λ cs. cs) (λ raw. none) (stream (two_lines ∷ one_line ∷ [])) []
    ≡ map (result_of (λ cs. cs) (λ raw. none)) (two_lines ∷ one_line ∷ []) ++ stdout_failed ∷ []
read_loop-stream_example =
    read_loop-stream (λ cs. cs) (λ raw. none) (λ cs e. cc) (two_lines ∷ one_line ∷ [])
