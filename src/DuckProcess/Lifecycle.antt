-- ===== src/DuckProcess/Lifecycle.antt =====
-- The start, the restarts, the query and the stop for an upgrade, server/db/duckdb_process.go.
use Prim.Native.String.{◌++◌ as append}
use rss_lance.Base.{
  String, List, [], Bool, true, false, not, Option, none, some, ◌=str◌, if◌then◌else◌,
}
use rss_lance.DuckProcess.{
  Row, Engine, DuckProcess, Answer, rows, stopped, dead_and_restart_failed, restart_failed,
  failed_after_restart, first_text, boot_sql, emit_log, kill, read_versions, send_and_read,
}

unfoldable pub drop_rows : Answer → Answer
drop_rows (rows result) = rows []
drop_rows stopped = stopped
drop_rows dead_and_restart_failed = dead_and_restart_failed
drop_rows restart_failed = restart_failed
drop_rows failed_after_restart = failed_after_restart

module _ {e : Engine} where
  open e use {World, available, spawn, drain_results, send, receive}

  -- The check of the verification query.
  unfoldable pub verify : Option (List Row) × World → DuckProcess e → Bool × DuckProcess e
  unfolding kill read_versions first_text
  verify (none, world) d = (false, kill (record d { world = world }))
  verify (some result, world) d =
      if first_text "extension_name" result =str "lance"
      then (true, read_versions (record d { world = world }))
      else (false, kill (record d { world = world }))

  -- `start`, with the text that loads the extension and attaches the data directory.
  unfoldable pub start : String → DuckProcess e → Bool × DuckProcess e
  unfolding verify kill
  start attach d =
      let (spawned, world1) = spawn d.world in
      let (sent, world2) = send (append attach boot_sql) (drain_results world1) in
      if not (available d.world)
      then (false, d)
      else if not spawned
      then (false, record d { world = world1 })
      else if sent
      then verify (receive world2) (record d { alive = true; world = world2 })
      else (false, kill (record d { alive = true; world = world2 }))

  -- `restart`.
  unfoldable pub restart : String → Bool → DuckProcess e → Bool × DuckProcess e
  unfolding start kill
  restart attach graceful d =
      let killed =
        if graceful
        then emit_log "info" (kill (emit_log "info" d))
        else kill (emit_log "error" d) in
      let (started, d') = start attach killed in
      if d.alive
      then (true, d)
      else if started
      then (true, emit_log "info" d')
      else (false, emit_log "error" d')

  last_try : Option (List Row) × DuckProcess e → Answer × DuckProcess e
  last_try (none, d) = (failed_after_restart, d)
  last_try (some result, d) = (rows result, d)

  -- Behind a failed exchange.
  pub retry : String → String → DuckProcess e → Answer × DuckProcess e
  unfolding restart send_and_read last_try
  retry attach sql d =
      let (restarted, d') = restart attach false (record (emit_log "error" d) { alive = false }) in
      if d.stopped_for_upgrade
      then (stopped, d)
      else if restarted
      then last_try (send_and_read sql d')
      else (restart_failed, emit_log "error" d')

  unfoldable pub first_try :
      String → String → Option (List Row) × DuckProcess e → Answer × DuckProcess e
  unfolding retry
  first_try attach sql (none, d) = retry attach sql d
  first_try attach sql (some result, d) = (rows result, d)

  -- `query`.
  unfoldable pub query : String → String → DuckProcess e → Answer × DuckProcess e
  unfolding restart first_try send_and_read
  query attach sql d =
      let (restarted, d') = restart attach false d in
      if d.stopped_for_upgrade
      then (stopped, d)
      else if d.alive
      then first_try attach sql (send_and_read sql d)
      else if restarted
      then first_try attach sql (send_and_read sql d')
      else (dead_and_restart_failed, d')

  -- `execStmt`, which does what `query` does and returns no rows.
  unfoldable pub exec_stmt : String → String → DuckProcess e → Answer × DuckProcess e
  unfolding query drop_rows
  exec_stmt attach sql d = let (answer, d') = query attach sql d in (drop_rows answer, d')

  -- `gracefulRestart`: true where it returns no error.
  unfoldable pub graceful_restart : String → DuckProcess e → Bool × DuckProcess e
  unfolding restart
  graceful_restart attach d =
      restart attach true
        (record (emit_log "info" d) { alive = false; stopped_for_upgrade = false })

  -- `stopForUpgrade`.
  unfoldable stop_for_upgrade : DuckProcess e → DuckProcess e
  unfolding kill
  stop_for_upgrade d =
      emit_log "info" (record (kill (emit_log "info" d)) { stopped_for_upgrade = true })

  -- `startAfterUpgrade`.
  unfoldable start_after_upgrade : String → DuckProcess e → Bool × DuckProcess e
  unfolding restart
  start_after_upgrade attach d =
      if not d.stopped_for_upgrade
      then (false, d)
      else restart attach true (record (emit_log "info" d) { stopped_for_upgrade = false })

  -- `close`.
  unfoldable pub close : DuckProcess e → DuckProcess e
  unfolding kill
  close d = kill d
