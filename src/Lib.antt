-- ===== src/Lib.antt =====
-- The verification library of Catworld: the logic that decides, without the drivers, the SQL and the
-- pages around it. Paths are those of the repository.
--
-- Parts and how they interact. A supervisor process keeps one child process for each worker profile
-- that is enabled (src/supervisor/core.ts); users send it commands through rows of a table
-- (src/server/worker/commands.ts), and a child is started again when its profile changes in a way that
-- only a start makes effective (src/server/worker/profiles.ts). A worker process has an identity and
-- waits for its jobs before it ends (src/worker/runtime.ts). Its loops take jobs from a table that all
-- workers share (src/worker/claim.ts), complete, fail and recover them (src/worker/index.ts); previews and
-- imports of uploads (src/server/uploads/actions.ts) and refreshes of sources
-- (src/server/connections/sources.ts) come into that table from requests and from the clock. Presets set the profiles and the limits
-- together (src/lib/worker-presets.ts). The web server answers queries of actors with permissions
-- (src/server/auth), behind slots, a cache of results and a rate limit (src/server/query/protection.ts);
-- loads of data are judged before they are published (src/server/integrity/policy.ts); clients that
-- follow a table read pages of its changed rows (src/server/tables/since.ts).
--
-- Files, and the code that each is about.
-- Common: names shared by all. Tests on numbers and texts, list functions, `Map` as an association
--   list whose keys occur once and are in the order of their first insertion (Dict), the order of texts
--   (TextOrder).
-- Supervisor: the class Supervisor of src/supervisor/core.ts. Supervisor has the records; Slots what
--   happens to one slot; Reconcile `reconcile`, `enforceDeadlines`, `onChildExit` and `beginShutdown`;
--   Commands `startCommand` and `finishCommands`; Await the points where a call waits for the database;
--   Tick `tick` as a whole. WellFormed, SlotWise, Shutdown, Completion, Restarts, Lifecycle and Statuses
--   hold proofs.
-- Worker/Commands, Worker/Profiles, Worker/Presets and Worker/Runtime:
--   src/server/worker/commands.ts, profiles.ts, src/lib/worker-presets.ts with
--   src/server/worker/apply-preset.ts, and src/worker/runtime.ts with src/supervisor/leadership.ts.
-- Jobs: the table of jobs. Jobs has the rows of the tables; Claim the statement of claim.ts; Finish and
--   Recover the statements of src/worker/index.ts, with `startHeartbeat` of src/worker/metrics.ts; Uploads
--   src/server/uploads/actions.ts and the cancelling in src/app/api/v1/uploads/[id]/route.ts; Sources the
--   queueing of refreshes; Bulk the cancelling of all uploads and of a source's runs, the dismissal of failed
--   jobs (src/app/api/v1) and the deletions (src/server/data/catalog.ts, the retention of
--   src/worker/index.ts); Chores the queueing of derived tables, migrations and the cleanup; Steps the steps
--   that change the tables, and runs of them. Tables, Moves, Releases, Growth, Upkeep and Kinds hold the
--   lemmas on what a step does to a row; the other files hold proofs.
-- Refresh: `refreshDatasetSource` of src/server/connections/sources.ts. Refresh has the lease; Steps the
--   steps of the rounds of one source; Plan what a round reads and replaces, with effectiveIntegrity of
--   source-options.ts; Keys the check of keys, with keysCheckExceeds of src/server/storage/delete-detection.ts.
--   Held, Exclusion, Late, Whole, Guard, Marks and Skips hold proofs.
-- Locks: src/server/db/import-lock.ts, with watchJobStatus of job-cancel.ts. Locks has the operations, Steps
--   the steps of all processes; Holders, Backed, Kept, Changes, Exclusion and Waiting hold proofs.
-- Odata: the pages of src/server/odata/paging-facets.ts and, for live tables, of
--   src/app/api/odata/[...path]/route.ts, and a client that follows their links. The cache for the pages of
--   stored tables is left out.
-- Cache: src/server/cache/ttl-cache.ts. Query: src/server/query/protection.ts. Settings:
--   src/server/worker/config.ts. Integrity: src/server/integrity/policy.ts. Access:
--   src/server/auth/permissions.ts, actor.ts and `datasetsForActor` of sync-grants.ts. Since:
--   src/server/tables/since.ts. Decimals: src/lib/decimal-type.ts. Source:
--   src/server/connections/source-guards.ts and the tracker of source-delta.ts.
--
-- How state and operations correspond. A class with mutable fields is a record, and a method a function
-- from the record to the new one, with its result or its effects beside it. Time is a number of
-- milliseconds that the caller passes. A call that throws gives `none`.
-- A child process is a number that is never given out twice. The effects of the supervisor (start,
--   drain message, SIGTERM, SIGKILL, audit entry) are listed in their order. At each wait for the
--   database a script says which children exit meanwhile, whether the shutdown begins, and whether the
--   call throws; so every interleaving of one tick with exits and the shutdown is a script. A tick that
--   starts before the last one ends is not covered. Log lines, details of audit entries and the list of
--   running jobs are left out.
-- A table is the list of its rows, and each SQL statement or transaction is one step on it; the steps of
--   all processes are in one order. So two claims that run at the same moment, of which each counts
--   the running jobs before the other commits, are not covered. Of two jobs with the same weight and time
--   the claim takes the first row. The check of a cancellation or of a migration and the write that follows
--   it are two statements: the check reads a table of its own. The ids of new rows, which the database gives, are arguments that are
--   new by hypothesis. A payload is its parsed fields, null or malformed; where the jsonb cast of the
--   recovery would fail on a malformed one, the row matches nothing here. The next time of a cron
--   expression (croner) and the test for the mark of skipped checks are parameters. The columns that no
--   modelled statement reads, the marks of manual runs and the rights of a request are left out.
-- The row of a source, in Refresh, is written by its rounds, by the marking of queued sources, and by the
--   failures of jobs and the recovery, whose statements are in Jobs; what follows from such a failure is in
--   Refresh.Late. A heartbeat and its answer are one step. The timer of a round that believes to have its
--   lease fires within 60 seconds after the last time. A round's reading of its origin, the staging table
--   and the SQL of the swap are left out, so is the making ready of a Firebird file; the count of skipped
--   checks is a number beside the text that holds it.
-- The table of import locks is a function from keys to rows. The clocks of the processes and of the
--   database are one. A statement that met the row and its answer are two steps, at most a delay apart, which
--   is a parameter; the answer that no row was met may come at any time. A holder's name is new when it takes a
--   lock; a process cancels the tokens of its jobs before it releases its locks, as its shutdown does.
-- `now - t` stops at 0 here, which the tests `>= 2000`, `>= 5000` and so on cannot tell from a negative
--   number. The window of the rate limit, `t > now - W`, is written `now < t + W`.
-- The size of a result and the share of rows that a load lost are compared as whole numbers, without
--   the rounding of floating point.
-- Settings are read with `Number` of JavaScript, and command requests with the UUID test of zod: both
--   are parameters, as `Date.parse` is.
-- A row of a page has its stamp as normalised text, and a cursor is not encoded. The rows that the
--   database returns for a limit are the first rows of the table's changed rows.
--
-- Bounds and fuel. `processCommands` takes five commands at most, so its rounds are recursion on 5. The
-- wait for idleness has fuel for each millisecond up to the limit, and the wait for an identity has
-- 60001, of which a wait of 60 seconds in steps of two seconds uses 31. The wait for the lock of an import
-- has fuel for one attempt more than fit before its deadline: 901 for the 30 minutes and two seconds of
-- the source. All other recursion is on the
-- data. Numbers are unbounded; the source's are far below 2^53, except for the doubling of the backoff,
-- which is capped before it matters.
--
-- Not covered: SQL texts and drivers, the import of files, the options, formats and page cache of the OData routes, sessions and tokens,
-- cryptography, the work of a job and the loop of a worker, pages and formatting.
pub mod Common
pub mod Access
pub mod Cache
pub mod Decimals
pub mod Integrity
pub mod Jobs
pub mod Locks
pub mod Odata
pub mod Query
pub mod Refresh
pub mod Settings
pub mod Since
pub mod Source
pub mod Supervisor
pub mod Worker
