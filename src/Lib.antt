-- ===== src/Lib.antt =====
-- token-usage: watchers read the transcripts of coding tools and send usage records and file edits to
-- a server, which keeps them in a database. These modules model the code in its own words and prove
-- what makes it correct.
--
-- The program's parts and the modules that model them:
--   Types               internal/types/types.go: what travels from a watcher to the server
--   Store.Keys, Store.Rollup, Store.Usage, Store.Edits
--                       internal/server/store.go and schema.go: Store.Insert, Store.InsertEdits and
--                       Store.RebuildDaily. Both ingest statements have one shape, a detail table with
--                       a primary key and a daily table of sums: Store.Rollup states it over the record
--                       `Stream`, and Store.Usage and Store.Edits fill that record.
--   Store.Prices        internal/server/store.go UpsertPrice, SeedDefaultPrices and the two lists, over the
--                       table model_prices
--   Store.Repair        internal/server/store_repair.go: RepairCodexUsage
--   Store.Queries       internal/server/store.go: LangAggregate and ActivityAggregate; Queries.Priced has
--                       Aggregate and priceLookupSQL, Queries.Clock ClockAggregate
--   Server.Auth         internal/server/auth.go: NewAPIKey, CreateAPIKey, ResolveAPIKey, RevokeAPIKey,
--                       CreateUser, ListUsers, ListAPIKeys
--   Server.Ingest       internal/server/api.go: handleIngest, extractBearer
--   Server.Dashboard    internal/server/api.go: the handlers that read, and parseTime
--   Server.Admin        cmd/server/admin.go: codex-repair and the commands for users and keys
--   Server.PriceSync    internal/server/pricesync.go: selectPriceRows; PriceSync.Fetch has
--                       fetchPriceJSONWithRetry and SyncPrices
--   Server.Pricer       internal/server/pricing.go: NewPricer, Cost
--   Server.Worker       internal/server/worker.go: which loops run, what a rebuild covers, when the next
--                       is due
--   Server.System       cmd/server/main.go runServer: requests, rebuilds and repairs on one database
--   Parsers.Std         what the parsers of internal/watcher/parsers share, and parser.go's types
--   Parsers.Tail        the incremental Scan that claudecode.go and pi.go have in common
--   Parsers.Claude, Parsers.Pi
--                       internal/watcher/parsers/claudecode.go and pi.go: what a line yields
--   Parsers.Opencode, Parsers.DeepseekHarness
--                       internal/watcher/parsers/opencode.go and deepseekharness.go
--   Parsers.Codex       internal/watcher/parsers/codex.go: Patch (parseApplyPatch), Script
--                       (jsStringLiteral, codexPatchEnvelopes), Output (codexOutputSucceeded), State (the
--                       state of a scan and token_delta), Emit (emitCodexLine, Scan)
--   Parsers.Lang        internal/watcher/parsers/lang.go: langFromPath, diffLineCounts
--   Watcher.Upload      internal/watcher/uploader.go: Send, SendEdits, spool, Flush
--   Watcher.Run         internal/watcher/checkpoint.go, and runOnce and sendBatched of
--                       cmd/watcher/cli/run.go
--   Watcher.Scan        internal/watcher/scanner.go: Scanner.Scan, and For of parser.go. Scan.Order has the
--                       same as one pass over the files of all sources, Scan.Ticks the watcher over time:
--                       files that grow, ticks and restarts
--   Watcher.Detect      internal/watcher/defaults.go: AutoDetectSources
--   Watcher.Start       cmd/watcher/cli/run.go DoRun, and LoadCheckpoint of checkpoint.go: from the flags
--                       to the loop of ticks
--   Watcher.Sources     cmd/watcher/cli/run.go: parseSources, resolveSources, formatPerToolScan,
--                       attributePath and the small helpers beside them
--   Prelude, Table, Sort
--                       shared helpers: Go's strings as bytes, int64 arithmetic, tables with a key, sorting
--   Examples            runs on small inputs
--
-- How the parts interact: a scanner (`scan`) walks the sources and hands each file and its last
-- state to a parser, which returns records and a new state. A tick (`run_once`) flushes the spool,
-- sends the records in batches, and takes the new states into the checkpoint when every batch is
-- durable. The server inserts each batch in one transaction, refuses the ids that its detail table
-- holds, and answers with what it accepted. The handler of a batch (`handle_ingest`) resolves the
-- sender's key and runs both inserts; `Statement` is what it needs of them. The queries read the
-- daily tables, which the inserts, the rebuild and the repair write.
--
-- Conventions. A string is a list of bytes; paths are split at `/` and case is folded in ASCII. A
-- time in a record is a number of nanoseconds since Go's zero time, and in the store of
-- microseconds since it, by the argument `micros`, the database's conversion. An int64 is an
-- integer, and where Go's arithmetic could wrap it does so here (`sub64`); a BIGINT column out of
-- range fails its statement. Line counts are natural numbers: a file has fewer than 2 ^ 63 lines. A
-- transaction that fails is rolled back, but the commit of codex-repair may fail after it took
-- effect; `fault` is a failure from outside, such as a lost connection. The rates of a price are one value with an equality test, which floating-point rates
-- have when none is NaN.
--
-- Arguments, which stand for code that is not in the repository: JSON decoding and time parsing
-- (`Json`, `Documents`, `ClaudeJson`, `PiJson`, `OpencodeJson`, `DshJson`, `decode`),
-- decompression (`zstd`), SHA-256, floating-point arithmetic (`Float`), the database's collation
-- (`before`) and the start of a day in its time zone (`midnight`), what it knows of time zones
-- (`Zones`), the server's local calendar (`Zone`), the directory tree (`Tree`, `read_dir`,
-- `stat`), what a page request asks (`PageRequest`), times as text (`TimeCodec`), and the network,
-- clock and disk (`Outside`). `IsClocked` says that the clock does not go back and moves on while
-- a file is written; without it a spooled batch could take another's name.
--
-- Fuel: the loop of sendBatched has as much as there are records, and advances by at least one at
-- each batch; a fetch of the prices has the 10 attempts of the source; itoa has one more than its
-- number, which shrinks at each digit. Every other loop is recursion on its list.
--
-- Not modelled: the start of the server and its web pages; loops that only wait for a timer;
-- commands that install and control the watcher's service; log lines.
pub mod Prelude
pub mod Types
pub mod Table
pub mod Sort
pub mod Store
pub mod Parsers
pub mod Server
pub mod Watcher
pub mod Examples
