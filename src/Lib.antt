-- ===== src/Lib.antt =====
-- A verification library for the Renuzi operations platform: an Express backend (backend/src) of
-- which mobile devices queue their work offline. A device pushes items into sync_queue; a worker
-- claims a batch, hands each item to the processor of its type, and the processor calls the service
-- that the online route calls too; a service that changes a row which devices pull writes a row of
-- the change log in the same transaction.
--
-- Files and what they model:
-- - Constants: backend/src/constants.js. Schema, Payload, Database: the tables
--   (backend/database/*.sql), the request bodies, and the whole database as one record.
-- - Exec: executeQuery and withTransaction (backend/src/config/db.js) as functions from a database
--   to a result and a database. What was written before a throw stays, unless a transaction rolls
--   it back. Exec.Atomic and Exec.Preserves hold one rule for each way to build such an action, as
--   rule sets for `search`.
-- - Guards: backend/src/services/guards.js. ChangeLog: changeLogService.js. DocNumbers:
--   docNumbers.js. Backoff: backend/src/utils/backoff.js.
-- - Fleet: fleetService.js, in the parts Vehicles, Trips, Fuel and Maintenance. Fleet.OpenTrips is
--   the guard against a second open trip.
-- - Warehouse: warehouseService.js, in the parts Grn, Outbound, Custody and Stock.
--   Warehouse.Chain is the chain of custody, Warehouse.Refinement the machine behind it, both over
--   Warehouse.Frame, what a stage's work leaves alone.
-- - Processors: backend/src/sync. Processors.Laws is the interface between the services and a
--   relation on databases: a relation that allows each of their writes is kept by every processor
--   (Processors.Keeps); Processors.Monotone, over the order in Processors.Later, and
--   Processors.Ledger fill it.
-- - Queue: syncQueueService.js. Queue.Claim is the claim, Queue.Failure the ways of a round and the
--   enqueue, Queue.Outcome the whole of a round, Queue.Budget and Queue.Run the retry counts over a
--   whole run.
-- - Pull: syncPullService.js, in the parts Snapshot (datasets, meta probe, snapshot pages) and
--   Changes (pullChanges). Pull.Resume is about page after page, Pull.Retention about the
--   watermark of the purge.
-- - Fleet.Decisions is about a fuel request that is decided twice, Fleet.Reports about the report of
--   maintenance, Fleet.Approvals about its approval, with Fleet.Threshold and Fleet.Signatures.
-- - ChangeLog.Upserts is about a change that is recorded. ChangeLog.Sweep: the sweep and the purge
--   of the log, proved in ChangeLog.Complete by way of Coverage (lists), Tables and Reach (the
--   loops). Exec.Total holds the rules for actions that never throw.
-- - Jobs: backend/src/jobs, in the parts AutoClose and Scheduler. Jobs.Drain is about the drain of
--   a queue, over Queue.Progress (a claim) and Queue.Rounds (the loop).
-- - Http: backend/src/middleware (Authenticate, Roles) and backend/src/routes. Account (auth.js),
--   FleetRoutes, WarehouseRoutes, SyncRoutes and PullRoutes are the handlers that change state,
--   Message the requests and answers, Endpoint the routes with their roles. Access is about who
--   reaches a handler, Rotation about the forced change of a password, Login, NewPassword and
--   UserIds about accounts, Acknowledge about the custody routes, Batch about a batch that is
--   received (over Queue.Kept), Work and Tickets about the status that maintenance work needs.
-- - Uploads: uploadService.js, middleware/upload.js and routes/uploads.js, in the parts Sniff,
--   Store, Token and Route. Stored is about what is stored, Link with Digits about the signed
--   links.
-- - Conflicts: conflictService.js. Pagination: backend/src/utils/pagination.js, with HMAC, JSON and
--   base64url as arguments.
-- - Examples, Fixtures: runs on a small company.
--
-- How code became definitions. Functions keep their names in snake case; the property names are the
-- columns'. A key of 0 is NULL or an absent property, a text "" an absent one; a property that the
-- code compares with undefined is an Option. Decimal columns are integers in hundredths, times are
-- in milliseconds; a value of app_config is what the reader of that name parses. Messages are the
-- source's templates with their `${…}` left in place. All IDENTITY columns draw from one counter,
-- which a rollback restores (SQL Server does not take identities back). `now` and `today` stand
-- still within one operation; random numbers and the configuration of a worker are arguments.
-- Arithmetic is exact where the code has doubles.
--
-- Loops over lists are structural. Decimal digits use the number itself as fuel, which is enough
-- since each step divides by 10.
--
-- Not modelled: failures of the SQL driver and of the file system, columns that are only written
-- (audit times, error messages), JSON as text (a payload is kept as the value it encodes), the HTTP
-- server, headers, rate limits and multipart bodies, and routes that only report (lists, the
-- dashboard). bcrypt, JSON web tokens, HMAC, base64url and the virus scanner are arguments.
pub mod Prelude
pub mod Constants
pub mod Schema
pub mod Payload
pub mod Database
pub mod Exec
pub mod Guards
pub mod ChangeLog
pub mod Fleet
pub mod DocNumbers
pub mod Warehouse
pub mod Processors
pub mod Backoff
pub mod Queue
pub mod Conflicts
pub mod Pagination
pub mod Pull
pub mod Jobs
pub mod Http
pub mod Uploads
pub mod Fixtures
pub mod Examples
