-- ===== src/Process.antt =====
-- The Python sidecar that writes Lance, server/db/lance_process.go: start, restart, and a command with
-- one retry. The lock is held throughout, so each is a function on the state.
pub mod Recover
pub mod Commands
pub mod Writes
pub mod AtLeastOnce
use rss_lance.Base.{
  String, List, [], ◌∷◌, ◌++◌, Bool, true, false, Option, none, some, if◌then◌else◌,
}

-- A line of the sidecar: its "ok" and its "error".
pub record Response : Type 0 where
  pub ok : Bool
  pub error : String

-- The operating system and the sidecar. `launch` finds the script and starts the process, `ready` waits
-- for its ready line within the timeout, `exchange` writes a command as a line and reads and parses one
-- (`none` is an error of any of them), and `stop` closes the pipe and kills the process.
pub record Sidecar : Type 1 where
  pub World : Type 0
  pub launch : World → Bool × World
  pub ready : World → Bool × World
  pub Line : Type 0
  pub exchange : Line → World → Option Response × World
  pub stop : World → World

-- `lanceWriter`: the flag, the outside, and the levels of the entries given to `logFn`.
pub record Process (os : Sidecar) : Type 0 where
  pub alive : Bool
  pub world : os.World
  pub log : List String

-- What a command returns.
pub data Reply : Type 0 where
  answered : Response → Reply
  refused : String → Reply
  dead_and_restart_failed : Reply
  restart_failed : Reply
  failed_after_restart : Reply

-- The check for errors of the application.
abbrev pub check : Response → Reply
check r = if r.ok then answered r else refused r.error

module _ {os : Sidecar} where
  abbrev pub emit_log : String → Process os → Process os
  emit_log level w = record w { log = w.log ++ level ∷ [] }

  unfoldable pub kill : Process os → Process os
  kill w = record w { alive = false; world = os.stop w.world }

  -- `start`: alive from the start of the process on, and killed where it does not get ready.
  unfoldable pub start : Process os → Bool × Process os
  unfolding kill
  start w =
      let (launched, world1) = os.launch w.world in
      let (is_ready, world2) = os.ready world1 in
      if launched
      then (if is_ready
          then (true, record w { alive = true; world = world2 })
          else (false, kill (record w { alive = true; world = world2 })))
      else (false, record w { world = world1 })

  unfoldable pub restart_locked : Process os → Bool × Process os
  unfolding kill start
  restart_locked w =
      let (started, w') = start (kill (emit_log "error" w)) in
      if w.alive
      then (true, w)
      else if started
      then (true, emit_log "info" w')
      else (false, emit_log "error" w')

  abbrev pub last_try : Option Response × os.World → Process os → Reply × Process os
  last_try (none, world) w = (failed_after_restart, record w { world = world })
  last_try (some r, world) w = (check r, record w { world = world })

  -- Behind a failed exchange.
  unfoldable pub retry : os.Line → Process os → Reply × Process os
  unfolding restart_locked
  retry cmd w =
      let (restarted, w') = restart_locked (record (emit_log "error" w) { alive = false }) in
      if restarted then last_try (os.exchange cmd w'.world) w' else (restart_failed, w')

  unfoldable pub first_try : os.Line → Option Response × os.World → Process os → Reply × Process os
  unfolding retry
  first_try cmd (none, world) w = retry cmd (record w { world = world })
  first_try cmd (some r, world) w = (check r, record w { world = world })

  -- `sendCmdLocked`.
  unfoldable pub send_cmd : os.Line → Process os → Reply × Process os
  unfolding restart_locked first_try
  send_cmd cmd w =
      let (restarted, w') = restart_locked w in
      if w.alive
      then first_try cmd (os.exchange cmd w.world) w
      else if restarted
      then first_try cmd (os.exchange cmd w'.world) w'
      else (dead_and_restart_failed, w')
