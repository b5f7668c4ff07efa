-- ===== src/Lib.antt =====
-- RSS-Lance keeps the articles of RSS feeds in Lance tables. This library models its Go server: the
-- store that overlays, buffers and replays the user's changes, the log path, and the processes that
-- the server starts.
--
-- The parts, and how they interact. The store (server/db/lance_cli.go) reads the Lance tables
-- through a DuckDB process (server/db/duckdb_process.go) and writes them with a native library
-- (server/db/lance_writer.go) or a sidecar process (server/db/lance_process.go). A change of an
-- article goes into an overlay in memory (server/db/cache.go), which the reads join with the table,
-- and into the pending changes of a local DuckDB cache (server/db/offline_cache.go). A flush
-- replays the pending changes into Lance and clears the overlay. While Lance is away the reads come
-- from the local cache. Log entries go into a buffer (server/db/logbuffer.go) and from there into
-- Lance, else into the local cache, else back into the buffer; events about the storage itself wait
-- in a ring (server/db/infra_events.go).
--
-- Which file models what:
--   * Types: the records of server/db/store.go and the rows of the Lance tables.
--   * InfraRing: infraRing of server/db/infra_events.go.
--   * LogBuffer: logBuffer of server/db/logbuffer.go. Its lock makes each method atomic but for the
--     write of a flush, which stands between begin_flush and finish_flush; LogBuffer/Steps has the
--     concurrent calls as a relation, and LogBuffer/NoLoss says where the entries are.
--   * WriteCache: writeCache of server/db/cache.go, and the overlay that the join with pendingCTE
--     makes.
--   * Offline, Offline/Snapshots, Offline/Reads, Offline/Pending, Offline/Logs: the tables of
--     server/db/offline_cache.go. Each SQL statement is a function on the lists of rows.
--   * Offline/Snapshot: Snapshot of server/db/offline_cache.go.
--   * Replay: Replay and collectChanges of server/db/offline_cache.go.
--   * Writer: MarkAllRead, FlushOverrides, PutSettingsBatch, and the log writes of
--     server/db/lance_writer.go.
--   * Sql: escapeSQ of server/db/store.go, buildIDFilter and joinStrings of server/db/lance_writer.go.
--   * Store, Store/Articles, Store/Feeds, Store/Settings, Store/Flush: cliStore of server/db/lance_cli.go.
--   * Embedded: cgoStore of server/db/lance_cgo.go, over rows in which a column can be NULL;
--     Embedded/Twin sets it against the store over the CLI.
--   * LogPath: flushLogs3Tier, the drains and InsertLogs of server/db/lance_cli.go; LogPath/Trim:
--     TrimLogs and TrimLogsByAge.
--   * LogReads: GetLogs of server/db/lance_cli.go; that of server/db/lance_cgo.go is Embedded/Logs.
--   * Process, Process/Writes: lanceWriter of server/db/lance_process.go; Process/Commands: its commands,
--     and what tools/lance_writer.py does with them.
--   * DuckProcess, DuckProcess/Lifecycle, DuckProcess/Calls: duckDBProcess of
--     server/db/duckdb_process.go; DuckProcess/Frames: its readLoop and parseJSONRows.
--   * Config: settingInt and the configurations of server/db/store.go and server/db/offline_cache.go.
--   * Http, Http/Articles, Http/Logs, Http/Settings, Http/Feeds: server/api/helpers.go,
--     ArticlesHandler of server/api/articles.go, LogsHandler of server/api/logs.go, SettingsHandler
--     of server/api/settings.go and FeedsHandler of server/api/feeds.go.
--   * ServerLogger: ServerLogger of server/api/logs.go.
--   * StatsHistory: StatsCollector of server/api/stats_collector.go.
--   * DebugFlags: the category mask of server/debug/debug.go.
--
-- The outside. Lance, DuckDB and the operating system are parameters: a record of the calls the
-- code makes (Lance in Writer, Sidecar in Process, Engine in DuckProcess), with a state of its own,
-- so that any call may fail at any time; for the local cache, whether its n-th statement runs. A
-- theorem that relies on what they do names it in a hypothesis. A table is a list of rows, and an
-- SQL statement is a function on it.
--
-- Loops are recursion on the list they run over. The loop over the pages of a snapshot has fuel,
-- and more than the table has rows is enough; the loop over its batches has as much as there are
-- ids. Numbers have no width where the code cannot reach one: list lengths, thresholds, counters of
-- retries. The sum of offset and limit in GetLogs, which a request sets, wraps at 2 ^ 63.
--
-- A query of the store over the CLI has three outcomes (Query in Store): its rows, no rows and no error
-- where DuckDB rejects the statement, or an error of the pipe. The store over embedded DuckDB gets an
-- error for a statement that is rejected.
--
-- Not modelled: the other HTTP handlers and the middleware, the entry point (flags, files,
-- routing), the log path of the store over embedded DuckDB, which repeats that of lance_cli.go, the
-- status and the table viewer of both stores, the file system checks, the Arrow record builders, and
-- the other programs in Python and JavaScript.
pub mod Base
mod Tests
pub mod Types
pub mod InfraRing
pub mod LogBuffer
pub mod WriteCache
pub mod Offline
pub mod Writer
pub mod Replay
pub mod Store
pub mod LogPath
pub mod Process
pub mod ServerLogger
pub mod DebugFlags
pub mod StatsHistory
pub mod Sql
pub mod DuckProcess
pub mod Embedded
pub mod Config
pub mod Http
pub mod LogReads
