-- ===== src/Tests/Trim.antt =====
-- A trim of three log entries to two.
use rss_lance.Base.{List, [], ◌∷◌, true, none, some, ◌≡◌, refl, not, keep_if, All, ℕ, Option}
use rss_lance.Base.Int.{pos}
use rss_lance.Types.{LogEntry}
use rss_lance.Offline.{sort_by}
use rss_lance.LogPath.Trim.{LogTable, older_than, trim_logs}
use rss_lance.LogPath.Trim.Newest.{HasTime, Outcome, trim_logs_lem}
use rss_lance.Store.{gives_rows}
use rss_lance.Tests.Data.{Tables, list_lance, two_articles, entry}

-- A delete with an empty text of a time does nothing.
abbrev keep_newer : Option ℕ → List LogEntry → List LogEntry
keep_newer none es = es
keep_newer (some t) es = keep_if (λ e. not (older_than t e)) es

abbrev list_table : LogTable list_lance
list_table = record {
  delete = λ t db. (true, record db { log_rows = keep_newer t db.log_rows });
  logs-delete = λ t db. refl;
}

abbrev at : ℕ → LogEntry
at t = record (entry "x") { timestamp = some t }

abbrev three_entries : Tables
three_entries = record two_articles { log_rows = at 5 ∷ at 9 ∷ at 7 ∷ [] }

three-HasTime : All HasTime three_entries.log_rows
three-HasTime = (
  record { time = 5; set = refl },
  (record { time = 9; set = refl }, (record { time = 7; set = refl }, tt)),
)

trim_run :
    trim_logs list_table true gives_rows gives_rows (pos 2) three_entries
    ≡ (true, record two_articles { log_rows = at 9 ∷ at 7 ∷ [] })
unfolding trim_logs sort_by
trim_run = refl

trim_done : (trim_logs list_table true gives_rows gives_rows (pos 2) three_entries).0 ≡ true
unfolding trim_logs sort_by
trim_done = refl

trim_logs_lem_example :
    Outcome list_lance gives_rows gives_rows 2 three_entries
      (trim_logs list_table true gives_rows gives_rows (pos 2) three_entries).1
trim_logs_lem_example =
    trim_logs_lem list_table gives_rows gives_rows 1 three_entries three-HasTime trim_done
