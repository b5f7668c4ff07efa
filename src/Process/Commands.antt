-- ===== src/Process/Commands.antt =====
-- The commands that the Go server sends to the sidecar, and what the sidecar does with them:
-- `LanceWriter` of tools/lance_writer.py.
use rss_lance.Base.{
  ℕ, suc, String, List, [], ◌∷◌, Bool, true, false, not, Option, none, some, ◌≡◌, ◌=str◌,
  if◌then◌else◌, map,
}
use rss_lance.Base.Assoc.{Assoc}
use rss_lance.Types.{LogEntry, Override}
use rss_lance.Writer
use rss_lance.Writer.{Lance, group_loop, same_override, flush_groups}
use rss_lance.Process.{Response, Sidecar}

-- A command with its fields.
pub data Command : Type 0 where
  put_setting : String → String → Command
  put_settings_batch : Assoc String → Command
  insert_setting : String → String → Command
  insert_settings : Assoc String → Command
  set_article_read : String → Bool → Command
  set_article_starred : String → Bool → Command
  mark_all_read : String → Command
  flush_overrides : Assoc Override → Command
  delete_pending_feed : String → Command
  insert_pending_feed : String → String → Command
  delete_old_logs : String → Command
  insert_logs : List LogEntry → Command

-- A command as a line of JSON.
pub record Lines : Type 1 where
  pub Line : Type 0
  pub encode : Command → Line
  pub decode : Line → Option Command
  pub decode-encode : (c : Command) → decode (encode c) ≡ some c

abbrev time_or_now : ℕ → Option ℕ → Option ℕ
time_or_now now none = some now
time_or_now now (some t) = some t

-- A row of `cmd_insert_logs`.
abbrev log_row_of : ℕ → LogEntry → LogEntry
log_row_of now e = record e { timestamp = time_or_now now e.timestamp; created_at = some now }

-- `add` and `delete` of the other tables are a parameter, `other`; `log_exists` says whether the
-- directory of log_api is there.
module _ (lance : Lance) (other : Command → lance.Db → Bool × lance.Db) (log_exists : Bool) where
  open lance use {Db, update_articles, update_settings, add_logs}

  -- `cmd_flush_overrides`: the groups are those of the Go code, by the columns that are set.
  unfoldable pub cmd_flush_overrides : Assoc Override → ℕ → Db → Bool × Db
  unfolding group_loop same_override flush_groups
  cmd_flush_overrides [] now db = (true, db)
  cmd_flush_overrides (o ∷ os) now db =
      flush_groups lance (group_loop same_override [] (o ∷ os)) now db

  cmd_insert_logs : List LogEntry → ℕ → Db → Bool × Db
  cmd_insert_logs [] now db = (true, db)
  cmd_insert_logs (e ∷ es) now db =
      if not log_exists then (true, db) else add_logs (map (log_row_of now) (e ∷ es)) db

  -- The handler of a command: true where it raises no exception.
  unfoldable pub execute : Command → ℕ → Db → Bool × Db
  unfolding cmd_flush_overrides cmd_insert_logs Writer.mark_all_read Writer.put_settings_batch
  execute (Command.put_setting key value) now db = update_settings (λ s. s.key =str key) value db
  execute (Command.put_settings_batch settings) now db = Writer.put_settings_batch lance settings db
  execute (Command.set_article_read id b) now db =
      update_articles (λ a. a.article_id =str id)
        (record { set_read = some b; set_starred = none; at = now }) db
  execute (Command.set_article_starred id b) now db =
      update_articles (λ a. a.article_id =str id)
        (record { set_read = none; set_starred = some b; at = now }) db
  execute (Command.mark_all_read feed) now db = Writer.mark_all_read lance feed now db
  execute (Command.flush_overrides overrides) now db = cmd_flush_overrides overrides now db
  execute (Command.insert_logs entries) now db = cmd_insert_logs entries now db
  execute c now db = other c db

  -- `dispatch`: a line that is no command is refused.
  unfoldable pub dispatch : Option Command → ℕ → Db → Bool × Db
  unfolding execute
  dispatch none now db = (false, db)
  dispatch (some c) now db = execute c now db

-- What becomes of an exchange: the process may die with the command unread, or with the answer unsent.
pub data Fate : Type 0 where
  answered lost_command lost_answer : Fate

pub record World (Db : Type 0) : Type 0 where
  pub db : Db
  pub exchanges : ℕ
  pub launches : ℕ

-- What happens outside: the fate of the n-th exchange and its clock, and whether the n-th launch and
-- its ready line succeed.
pub record Outside : Type 0 where
  pub fate : ℕ → Fate
  pub clock : ℕ → ℕ
  pub launches : ℕ → Bool
  pub gets_ready : ℕ → Bool

module _ {Db : Type 0} where
  unfoldable pub settle : Fate → Bool × Db → World Db → Option Response × World Db
  settle answered (ok, db') w =
      (some (record { ok = ok; error = "" }), record w { db = db'; exchanges = suc w.exchanges })
  settle lost_command (ok, db') w = (none, record w { exchanges = suc w.exchanges })
  settle lost_answer (ok, db') w = (none, record w { db = db'; exchanges = suc w.exchanges })

-- The sidecar over Lance.
abbrev pub python_sidecar :
    (lance : Lance) → (Command → lance.Db → Bool × lance.Db) → Bool → Lines → Outside → Sidecar
python_sidecar lance other log_exists lines outside = record {
  World = World lance.Db;
  Line = lines.Line;
  launch = λ w. (outside.launches w.launches, record w { launches = suc w.launches });
  ready = λ w. (outside.gets_ready w.launches, w);
  exchange = λ line w.
      settle (outside.fate w.exchanges)
        (dispatch lance other log_exists (lines.decode line) (outside.clock w.exchanges) w.db) w;
  stop = λ w. w;
}
