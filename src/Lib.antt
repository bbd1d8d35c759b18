-- ===== src/Lib.antt =====
-- A model of crowdshield, the service that turns feeds of malicious networks into CrowdSec decisions,
-- with theorems about it. Paths are from the repository's root.
--
-- Parts and files:
-- - Prelude: shared tests, lists, texts (a Go string is its list of bytes), integers, chains of early
--   returns, and the meaning of a regular expression.
-- - Ops (internal/ops/event.go): Vocabulary has the closed string types, one constructor for each
--   constant and `other` for the remaining strings; Event has `Event.Validate` (validate_event, in
--   the parts check_fields, check_failure and check_feed), `FeedResult.valid` and `Result.Validate`
--   (validate_result); FeedName has `ValidFeedName`. Laws and Results say what passes.
-- - Health (internal/health/readiness.go): Tracker has the record and each method that changes it,
--   Snapshot has `Snapshot`; Trace, Readiness and Outage are about sequences of calls.
-- - Scheduler (internal/scheduler/scheduler.go): Options has `New`, `jitter` and `retryDelay`, Cycle
--   has `emit` and `executeCycle`, Run has `Run`; Backoff, Retries, Recovery and Deadlines are about
--   them. The events that the scheduler emits are those of Ops, and it runs a job whose result
--   `Result.Validate` of Ops must pass.
-- - Network (internal/network): Address is a value model of the net/netip prefixes that the package
--   uses, Safety has safety.go and `ValidateKind`, Desired has `BuildDesired` of dedupe.go in its
--   stages: collect and collect_one are the first loop, object_of the second, cover_loop the third.
--   The map of builders is a list in the order of first insertion. Overlap is about the prefixes;
--   Counts, Guarantees and Covering are about `BuildDesired`.
-- - App (internal/app/result.go): Report has `ResultFromSync`, from a report of internal/syncer to a
--   result of Ops; Tally and Outcome are about it.
-- - Notify (internal/notify): Notice has `Notice.Validate`, State what the manager keeps in its store,
--   Manager its fields, `load`, `save` and `event`, Handlers `attempt` and the operations. The store
--   is a map that keeps what was saved; each call of store and transport may fail. Recorded, Trace and
--   Calls are about sequences of calls.
-- - Lapi: the messages of internal/lapi/models.go.
-- - State (internal/state): Records has the records of the store, Tables the rows of
--   migrations/001_initial.sql that operations are about, Operations and Verification the operations of
--   enforcement_repository.go that write them. A call for which the database fails does so in its first
--   statement, which is what a transaction that is rolled back looks like, but for the error's
--   category. Moves has the steps of an operation's status, Calls sequences of these calls, without
--   PruneHistory.
--   Branches goes through the branches of a call, Begun is about `BeginOperation`, Decisions about the
--   rows of decisions. Enforcement has `validateEnforcementObject`, Plans what it answers for the
--   objects of `BuildDesired`.
--   Feeds has the feeds and Entries their entries, with the operations of feed_repository.go that write
--   them; Fates and Grace are about `ApplyFeedSnapshot`, Storable about what it accepts.
--   Runs and Closing have the runs of the synchronization and the times of sync_repository.go, without
--   the list of the runs; a value of runtime_state is the time that it stands for. RunLives and
--   Completed are about the calls, without PruneHistory, History about how the result of a feed is kept.
--   Notifications has notification_repository.go.
-- - Feed (internal/feed): Types has types.go and what is taken from Go's library, Scan `scan`, Parser
--   the parsers and `Parse`, Validate `Validate`; Parsed, Lines, Reading, Order and Snapshots are about them. A float64
--   is its bit pattern, whose operations are an argument. Spaces in Prelude has the functions on texts,
--   and Network.Normalize normalize.go over the parsers of net/netip, with Masking about it.
-- - Syncer (internal/syncer): World has the calls of `stateStore`, `fetchClient` and `reconcileClient`,
--   answered as those of Reconcile are, Engine what a run computes without a call, Run and DryRun the
--   parts of `Run` and `runDry`, Whole `Run`. A run reads its clock once, and stops at the first error of
--   the store. Keeping and DryKeeping have what every step keeps, Tallied is about the counters of the
--   report, Agreeing about them and the conversion of App, Settling and Endings about the results.
-- - Reconcile (internal/reconcile/reconcile.go): World has the calls of `stateStore` and `lapiClient`;
--   the environment answers each by a function of all calls before it, so it stands for any store, any
--   local API and any other program that uses them. Alerts has `New`, `verifiedAlert` and
--   `decisionExpiry`; Operations `expireOwned`, `finishVerified`, `createForOperation` and `recover`;
--   Plan `buildObjects`, `primaryFeed`, `activeByObject` and `operationHash`; DryRun, Planning, Execute
--   and Run the rest, `Run` being run. Discipline says which call may follow which, and Expiring,
--   Creating, Recovering, Ordering and Orderly show it of each part; DryRuns, ReadOnly and DryCounts are
--   about dry runs, Verified about `verifiedAlert`, Batches about the batches. The loop over the batches
--   takes as many rounds as there are actions, which is enough, since a batch has at least one. Parsing
--   of times, printing of addresses and SHA-256 are the standard library's, and an argument.
-- - Tests: concrete runs, and each theorem below at an input that meets its hypotheses.
--
-- Conventions: a time is a number of nanoseconds since Go's zero time, which is 0, so times before
-- year 1 are left out; int64 and int values that the code tests for a sign are integers, and become
-- numbers once the code has found them in range, so that no sum or product of theirs can overflow; where
-- the seconds of a feed's metadata can, the wrap-around is written out.
-- A mutex makes a method one step. The clock, the random source, contexts, timers and the job are
-- arguments: what they answer is given to the functions, in the order in which the code asks.
-- The loop of `Run` that moves a deadline takes fuel: the clock's reading plus two, since each round
-- moves the deadline by at least one nanosecond. The retry loops recur on the attempts left.
--
-- Not modelled: HTTP, the other tables of the store, file and command-line code, logging and metrics,
-- configuration files and the client of the CrowdSec local API; nil receivers, except in `Snapshot`.
pub mod Prelude
pub mod Ops
pub mod Health
pub mod Scheduler
pub mod Network
pub mod App
pub mod Notify
pub mod Lapi
pub mod Feed
pub mod State
pub mod Reconcile
pub mod Syncer
mod Tests
