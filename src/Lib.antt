-- ===== src/Lib.antt =====
-- ntulearn-skill, the synchronization core (src/ntulearn_skill/sync). A local store remembers, for each
-- scope (provider, course, kind of data, time window), what the last synchronizations of it
-- established; reads consult that memory to decide whether local data are fresh enough; inventories of
-- a course are compared with the known resources; derived work (parsing, indexing, extraction,
-- reconciliation) is queued and run by jobs with leases.
--
-- Core/Models, Core/Identifiers, Client, Parsers/Models and Sync/Models hold the vocabulary of
-- core/models.py, core/identifiers.py, client/contracts.py, parsers/models.py and sync/models.py, as
-- far as the rest uses it. Client/Stream is `EphemeralByteStream`, over the list of what its iterator
-- does; reading it to the end takes one unit of fuel for each read, and each but the last gives a byte.
--
-- Sync/Discovery and its children are src/ntulearn_skill/sync/discovery.py. A `Scan` holds the variables
-- of a loop: its progress, what it collects, and the world outside. Paging has one round and the loop
-- that Courses (`_courses`, `_target_course`) uses; Content and Walk are `_content`, Run and Scoped
-- `run`, `sync_course` and `discover_courses`. The source, the sessions and the repositories are the
-- interface `Backend`, whose operations may raise anything, and change the world at will unless they only
-- look something up; what the look-up of a course raises is passed on, as its calls are outside any `try`.
-- The recorder is the interface `Recorder`. The loops over pages recurse on the rounds that `max_pages` leaves. The
-- loop over the parents has `max_nodes + 2` of fuel: each parent but the root is queued
-- for a node that was counted, so the loop takes at most `max_nodes + 1` of them.
--
-- Sync/Observability is src/ntulearn_skill/sync/observability.py, over the rows of providers, courses,
-- runs and scopes; Finish has `finish` and `get`.
--
-- Sync/State and its children are src/ntulearn_skill/sync/state.py. A store is the lists of providers,
-- observed courses, run keys and rows of `sync_state`; `record_attempt` passes it on as the method
-- does, and `merge` is the `ON CONFLICT` clause of its upsert. A call that raises returns an error and
-- no store, as its transaction has rolled back.
--
-- Sync/Freshness is src/ntulearn_skill/sync/freshness.py: `evaluate_freshness` with its decision, and
-- `retrieve_with_freshness`, whose callbacks are functions on an environment of the caller's.
--
-- Sync/Jobs is src/ntulearn_skill/sync/jobs.py. The table `local_job` is a list of rows in the order of
-- their keys; Queue and Update are the methods of `LocalJobQueue`, Planner is `LocalJobPlanner`, Runner
-- and Execution are `LocalJobRunner`. The loop of `run` recurses on `max_jobs`, so it needs no fuel.
-- Changes, Kept and History treat the queue as a state machine, a step being a call that returns.
--
-- Sync/Lifecycle is src/ntulearn_skill/sync/lifecycle.py: Reconcile holds `reconcile`, Checks its checks,
-- Loop what it does to the resources of the course, over tables as lists.
--
-- Storage/Courses is the part of src/ntulearn_skill/storage/repository.py that is about courses;
-- `sanitize_source_text` is a parameter there.
--
-- The parts meet where an attempt that was recorded is evaluated (Sync/Freshness/Recorded), where the
-- scope that discovery reports is the one that the lifecycle compares (Sync/Discovery/Reported), where
-- the planner's jobs are scheduled in the queue, and where a runner claims and finishes them.
--
-- Conventions. Instants and durations are natural numbers of microseconds (a time that is stored and
-- read is the same instant); a naive time is its own constructor. A sum of a time and a duration that
-- is past the year 9999 raises, as `datetime` does. Keys are naturals, and zero stands
-- for the keys that a check refuses. Checks of Python types hold by the types of the model. JSON
-- columns that the code writes and reads back are held decoded; SHA-256, `uuid4` tokens and the
-- services of the jobs are parameters. Errors of SQLite other than the constraints are not modelled,
-- nor are concurrent connections: each transaction is one step.
--
-- Not modelled: the engine, events, search, parsers, content nodes and files of the storage, the source client,
-- the command line and the integrations.
pub mod Prelude
pub mod Core
pub mod Client
pub mod Parsers
pub mod Sync
pub mod Storage
