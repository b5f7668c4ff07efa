-- ===== src/Process/Writes.antt =====
-- The writes of `lanceWriter` in server/db/lance_process.go: each sends one command to the sidecar.
-- A write gives true where it returns no error.
use rss_lance.Base.{String, List, [], ◌∷◌, Bool, true, false, not, Option, none, if◌then◌else◌, map}
use rss_lance.Base.Assoc.{Assoc}
use rss_lance.Types.{LogEntry, Override}
use rss_lance.Process.{Sidecar, Process, Reply, answered, send_cmd}
use rss_lance.Process.Commands.{Command}

abbrev pub no_error : Reply → Bool
no_error (answered r) = true
no_error _ = false

-- The overrides that set a column.
abbrev pub sets_something : Option Bool → Option Bool → Bool
sets_something none none = false
sets_something _ _ = true

unfoldable pub to_send : Assoc Override → Assoc Override
to_send [] = []
to_send ((id, ov) ∷ m) =
    let rest = to_send m in
    if sets_something ov.is_read ov.is_starred then (id, ov) ∷ rest else rest

-- The fields of an entry that are sent.
abbrev sent_entry : LogEntry → LogEntry
sent_entry e = record e { service = ""; created_at = none }

module _ {os : Sidecar} (encode : Command → os.Line) where
  -- `sendCmd`, its answer not looked at.
  unfoldable pub send : Command → Process os → Bool × Process os
  unfolding send_cmd
  send c w = let (r, w') = send_cmd (encode c) w in (no_error r, w')

  pub put_setting : String → String → Process os → Bool × Process os
  unfolding send
  put_setting key value w = send (Command.put_setting key value) w

  pub put_settings_batch : Assoc String → Process os → Bool × Process os
  unfolding send
  put_settings_batch settings w = send (Command.put_settings_batch settings) w

  pub insert_setting : String → String → Process os → Bool × Process os
  unfolding send
  insert_setting key value w = send (Command.insert_setting key value) w

  pub insert_settings : Assoc String → Process os → Bool × Process os
  unfolding send
  insert_settings [] w = (true, w)
  insert_settings (p ∷ ps) w = send (Command.insert_settings (p ∷ ps)) w

  pub set_article_read : String → Bool → Process os → Bool × Process os
  unfolding send
  set_article_read id is_read w = send (Command.set_article_read id is_read) w

  pub set_article_starred : String → Bool → Process os → Bool × Process os
  unfolding send
  set_article_starred id is_starred w = send (Command.set_article_starred id is_starred) w

  pub mark_all_read : String → Process os → Bool × Process os
  unfolding send
  mark_all_read feed w = send (Command.mark_all_read feed) w

  unfoldable pub send_overrides : Assoc Override → Process os → Bool × Process os
  unfolding send
  send_overrides [] w = (true, w)
  send_overrides (o ∷ os) w = send (Command.flush_overrides (o ∷ os)) w

  -- `FlushOverrides`.
  unfoldable pub flush_overrides : Assoc Override → Process os → Bool × Process os
  unfolding to_send send_overrides
  flush_overrides overrides w = send_overrides (to_send overrides) w

  pub delete_pending_feed : String → Process os → Bool × Process os
  unfolding send
  delete_pending_feed url w = send (Command.delete_pending_feed url) w

  pub insert_pending_feed : String → String → Process os → Bool × Process os
  unfolding send
  insert_pending_feed url category w = send (Command.insert_pending_feed url category) w

  pub delete_old_logs : String → Process os → Bool × Process os
  unfolding send
  delete_old_logs filter w = send (Command.delete_old_logs filter) w

  -- `InsertLogs`; `exists` is `logAPITableExists`.
  pub insert_logs : Bool → List LogEntry → Process os → Bool × Process os
  unfolding send
  insert_logs exists [] w = (true, w)
  insert_logs exists (e ∷ es) w =
      if not exists then (true, w) else send (Command.insert_logs (map sent_entry (e ∷ es))) w
