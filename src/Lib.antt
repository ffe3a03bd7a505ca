-- ===== src/Lib.antt =====
-- Visoraft: tasks that download a video, give it subtitles, transcode it, have it moderated and
-- reviewed, and publish it to platforms. Go services share one PostgreSQL database, and workers are
-- commanded through an outbox and answer with events. This library models the Go services.
--
-- Database (internal/database/migrations): the tables as lists of rows, in one record `Db`. An INSERT puts
--   the row first; SELECT, UPDATE and EXISTS are `find`, `update` and `exists` of Prelude/Tables. A
--   transaction is a body `Db → Result Db`; `commit` keeps the database of before where the body ends in
--   an error. `Ensures` (Database/Postcondition) is the postcondition of a body.
-- Identity (internal/identity/uuid.go): IsUUID.
-- Tasks (internal/tasks/postgres_store.go): Envelope is the frame in which every workflow event is
--   applied; Metadata, Assets, Download, Cancellation, Inspect, Transcode, TranscodeStop, SubtitleResult
--   and Subtitle are the bodies of the Apply methods; Events has their union, `apply_event`, and below it
--   what a body may do (Final, Effect, Media, Stages, Bodies, Frame). Control is Cancel, Pause and Resume,
--   Retry is Retry. Terminal follows messages that are applied one after the other.
-- Pipeline (internal/pipeline/service.go): `next_stage`, and `advance`, which queues the next stage.
-- Publishing (internal/publishing): Summary is recomputePublishJob, Picks is ClaimPublications, Worker and
--   Results are the store's methods for a publisher's claim and its end (worker_store.go); Process is
--   processOne (worker.go), Policy the rules for accounts of local use (fixture_policy.go), Templates are
--   the texts, tags and times of a publication; Blockers, Upserts and Prepare are PrepareApprovedTaskTx,
--   what it reads, what it writes and the whole; Jobs is EnqueuePublishJob and
--   RetryPlatformPublication, Drafts is UpdateDraft, Recovery is ResolvePlatform (job_store.go,
--   service.go). Prepared, Gated, Schedule, Claims, Totals, Failures, Unpublished, Verified, Settled,
--   Edited, Revival and Blockage hold the proofs. A platform, the cookies, the file system and the object
--   storage are what a `Publisher` brings along.
-- Monitors (internal/monitors): Rows are their tables beside those of the tasks (`Watch`), Store
--   changes monitors, Runs queues, claims and ends their runs, Ingestions is what is remembered of
--   videos (postgres_store.go), Scheduler the cycle of the scheduler (scheduler.go), Requests what an
--   operator asks for (service.go). Taken, Once, Drained and Stalled hold the proofs. Discovery,
--   tasks.Service.Create and strings.ToLower are what `Surroundings` brings along.
-- Moderation (internal/moderation): Model is the risk model, Store the Apply methods of a run's events,
--   Worker what is sent for a command, Fixture the local provider. Bodies, Frame, Runs, Risk and
--   Messages hold the proofs.
-- Reviews (internal/reviews/service.go): Rules and Evaluate are the evaluation of a task, Act and
--   Reprocess the actions of an operator, Metadata the edit of a task's texts. Verdicts, Steps, Restarts
--   and Edits hold the proofs. What PrepareApprovedTaskTx does in their transactions is the argument
--   `publications`, into which Published puts its model; DeleteAssets (internal/tasks) is the argument
--   `cleanup`.
-- Outbox (internal/outbox/store.go, internal/outbox/dispatcher.go): the claim of messages, what becomes
--   of them, and a batch.
-- Workflow (internal/workflow/consumer.go): `handle`, an event and then the pipeline's turn, and
--   `handle_moderation` for the events of moderation.
-- Scenarios: concrete databases on which the theorems are applied.
--
-- Conventions. UUIDs are texts, and new ones an argument `ids`; times are milliseconds; a nullable
-- column is an Option; integers whose sign matters are ℤ, others ℕ; the database's numbers do not
-- overflow. A duration in seconds is held in milliseconds, so NaN and infinity do not occur. `len`
-- counts bytes in UTF-8, as Go does. Of rows that tie in an ORDER BY the first of the table comes
-- first. Of JSON columns the keys that the code reads again are kept. A conflict is told by its
-- code, an error by its text without the values in it. `now` is one time for a transaction, for a
-- run of processOne and for a cycle of the scheduler. A job's fingerprint is the argument
-- `Fingerprint` of what it is the hash of. The time of a daily schedule is a text that validClock
-- lets through, in UTC.
--
-- Not modelled: failures of the database, JSON decoding, HTTP, the broker but for its answer, the
-- cloud provider of moderation, and the parts that the services only show. Of publishing the covers,
-- accounts, presets, the edit of strategies and the adapters of the platforms are left out; of
-- monitors discovery, their creation and edit, and the checks at the head of EnqueueItems. Scores of
-- subtitles are held in hundredths, as the code rounds them. The review that follows `advance` and
-- the broker are arguments. Loops over lists are structural; `run_rounds` recurs on the rounds left
-- of the ten that a cycle has. FailPublication is never given a nil failure by the worker. The text
-- that Reschedule keeps is cut to 2000 bytes by the caller's argument.
pub mod Prelude
pub mod Database
pub mod Identity
pub mod Moderation
pub mod Monitors
pub mod Tasks
pub mod Pipeline
pub mod Publishing
pub mod Reviews
pub mod Outbox
pub mod Workflow
pub mod Scenarios
