-- ===== src/DuckProcess.antt =====
-- The DuckDB process that runs the queries, server/db/duckdb_process.go: its state, and the exchange of
-- a statement and its sentinel. The query lock is held throughout, so each operation is a function on
-- the state. The pid and the start time are not modelled.
pub mod Frames
pub mod Lifecycle
pub mod Calls
pub mod Sentinel
use Prim.Native.String.{◌++◌ as append}
use rss_lance.Base.{
  ℕ, String, List, [], ◌∷◌, ◌++◌, Bool, true, false, not, ◌&&◌, Option, none, some, code, ◌==◌,
  ◌=str◌, if◌then◌else◌,
}
use rss_lance.Base.Assoc.{Assoc, lookup}

-- A row of a result, by the texts of its string values.
abbrev pub Row : Type 0
Row = Assoc String

-- The operating system, the pipes, and DuckDB behind them. `available` is whether the data path is
-- there, `spawn` starts the process and its reader, `drain_results` empties the channel, `send` writes
-- to the pipe, `receive` takes a result from the channel (`none` is an error or the timeout), and
-- `stop` closes the pipe and kills the process. `trim_space` is strings.TrimSpace.
pub record Engine : Type 1 where
  pub World : Type 0
  pub available : World → Bool
  pub spawn : World → Bool × World
  pub drain_results : World → World
  pub send : String → World → Bool × World
  pub receive : World → Option (List Row) × World
  pub stop : World → World
  pub trim_space : String → String

-- `duckDBProcess`: the flags, the versions, the outside, and the levels of the entries given to `logFn`.
pub record DuckProcess (e : Engine) : Type 0 where
  pub alive : Bool
  pub stopped_for_upgrade : Bool
  pub duckdb_version : String
  pub lance_version : String
  pub world : e.World
  pub log : List String

-- What a query returns.
pub data Answer : Type 0 where
  rows : List Row → Answer
  stopped : Answer
  dead_and_restart_failed : Answer
  restart_failed : Answer
  failed_after_restart : Answer

-- strings.HasSuffix(s, ";").
unfoldable pub ends_with_semicolon : String → Bool
ends_with_semicolon String.[] = false
ends_with_semicolon (String.◌∷◌ c String.[]) = code c == 59
ends_with_semicolon (String.◌∷◌ c (String.◌∷◌ d s)) = ends_with_semicolon (String.◌∷◌ d s)

abbrev pub terminated : String → String
terminated sql = if ends_with_semicolon sql then sql else append sql ";"

-- The sentinel query behind every statement.
abbrev pub with_sentinel : String → String
with_sentinel sql = append sql "\nSELECT '__SENTINEL__' AS _s;\n"

abbrev text_of : Option String → String
text_of none = ""
text_of (some v) = v

-- `isSentinelResult`.
unfoldable pub is_sentinel_result : List Row → Bool
unfolding lookup
is_sentinel_result [] = false
is_sentinel_result (row ∷ []) = text_of (lookup "_s" row) =str "__SENTINEL__"
is_sentinel_result (row ∷ row' ∷ more) = false

-- The string in a column of the first row, or "".
pub first_text : String → List Row → String
unfolding lookup
first_text column [] = ""
first_text column (row ∷ more) = text_of (lookup column row)

abbrev pub boot_sql : String
boot_sql =
    "SELECT extension_name FROM duckdb_extensions() WHERE loaded=true AND extension_name='lance';\n"

abbrev pub version_sql : String
version_sql = "SELECT version() AS v"

abbrev pub lance_version_sql : String
lance_version_sql =
    "SELECT extension_version FROM duckdb_extensions() WHERE extension_name='lance' AND loaded=true"

abbrev version_in : String → Option (List Row) → String
version_in column none = ""
version_in column (some result) = first_text column result

module _ {e : Engine} where
  open e use {World, available, spawn, drain_results, send, receive, stop, trim_space}

  abbrev pub emit_log : String → DuckProcess e → DuckProcess e
  emit_log level d = record d { log = d.log ++ level ∷ [] }

  -- `kill`.
  unfoldable pub kill : DuckProcess e → DuckProcess e
  kill d = record d { alive = false; world = stop d.world }

  -- The read of the sentinel behind a result. Where it fails the process counts as unhealthy.
  skip_sentinel : Option (List Row) × World → DuckProcess e → DuckProcess e
  skip_sentinel (some result, world) d = record d { world = world }
  skip_sentinel (none, world) d = emit_log "error" (record d { alive = false; world = world })

  -- What is read first: an error, the sentinel where the statement failed, or the result.
  read_result : Option (List Row) × World → DuckProcess e → Option (List Row) × DuckProcess e
  unfolding skip_sentinel is_sentinel_result
  read_result (none, world) d = (none, record d { world = world })
  read_result (some result, world) d =
      if is_sentinel_result result
      then (some [], record d { world = world })
      else (some result, skip_sentinel (receive world) (record d { world = world }))

  -- `sendAndRead`: `none` is an error.
  unfoldable pub send_and_read : String → DuckProcess e → Option (List Row) × DuckProcess e
  unfolding read_result ends_with_semicolon
  send_and_read sql d =
      let (sent, world) = send (with_sentinel (terminated (trim_space sql))) d.world in
      if sent then read_result (receive world) d else (none, record d { world = world })

  -- The end of `start`, with the extension loaded.
  unfoldable pub read_versions : DuckProcess e → DuckProcess e
  unfolding send_and_read first_text
  read_versions d =
      let (v, d1) = send_and_read version_sql (record d { duckdb_version = "" }) in
      let (l, d2) =
        send_and_read lance_version_sql
          (record d1 { duckdb_version = version_in "v" v; lance_version = "" }) in
      emit_log "info" (record d2 { lance_version = version_in "extension_version" l })
