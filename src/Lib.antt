-- ===== src/Lib.antt =====
-- BrainMate: the queues of a writing assistant, over Redis and an authentication gateway.
--
-- The program's parts:
--   lib/reconciliation-worker.ts keeps the operations on the gateway that failed (a token's
--   revocation, a session's sync or revocation) in a sorted set of Redis, and a worker retries
--   them with a growing delay, up to a dead-letter queue. lib/writeright-queue.ts queues the
--   writing jobs and keeps their status, results, cached responses and rate limits in Redis.
--   lib/redis.ts is the client with its circuit breaker, lib/writeright-errors.ts the errors that
--   all of them throw, and the handlers under app/api use these parts.
--
-- How it is modelled:
--   Common: the names that are shared, with tests, lists, texts, object literals and `String(n)`.
--   Types, Errors, Errors/Response: the data, and what a client is told of an error;
--   Errors/Response/Handler wraps a handler in its timeout and its errors' responses.
--   Redis: the server as a record of commands over an unknown state, and what its documentation
--   says of them as laws; Redis/Memory: a server in memory that meets the laws.
--   Exec: the process, an action on a world that holds the server, the outcome of each command
--   still to come (answered, lost, or carried out with its reply lost), the clock, the replies of
--   the gateway, the requests sent to it and the module's own variables; Exec/Keeps: invariants of
--   actions. Exec/Returns: actions that return. Commands: the client's commands as actions.
--   Reconciliation: lib/reconciliation-worker.ts. Keys has the constants, Window allowEnqueueNow,
--   Version the session versions, Gateway fetchWithTokenFallback, Operation executeOperation,
--   Enqueue enqueueReconciliation, Worker processPendingOperations, Loop startWorker and
--   getQueueStats. Here getRedisPool may throw, as where the client has ended, before the commands;
--   elsewhere such a client is a list of outcomes in which every command is lost. Fate says what
--   becomes of an entry, with its claim in Fate/Claim and what is left of it in Fate/Gone.
--   Queue: lib/writeright-queue.ts. Jobs has the queue and the status, Responses the results, the
--   cache and the idempotent responses, RateLimit checkRateLimit.
--   RedisClient: lib/redis.ts, its retry strategy, the circuit that its events drive, and the pool.
--   RustAuth: lib/rust-auth.ts, the client of the gateway.
--   Secrets: lib/secrets.ts, the cache of secrets and the check for rotation.
--   GmailClassifier: emailToAvatarColor of lib/gmail-classifier.ts.
--   Routes: app/api. Session is POST of app/api/auth/logout/route.ts and app/api/auth/sync/route.ts,
--   Poll is GET of app/api/writeright/job/[jobId]/route.ts, Completion is POST of
--   app/api/writeright/job/[jobId]/complete/route.ts, its check of the secret and its work on Redis,
--   and Completion/Handler the whole handler.
--   Message is POST of app/api/writeright/message/route.ts: Input has its validation by
--   lib/writeright-validators.ts and the sanitising, Admit the quota, length, rate and depth checks,
--   Parts its tables and smaller steps, Post the handler. Quota is GET of
--   app/api/writeright/quota/route.ts. Stream is GET of
--   app/api/writeright/job/[jobId]/stream/route.ts: Events has the events and the wait, Look one look
--   at the job, Run the loop and the handler. Stats and Analytics are what GET of
--   app/api/writeright/stats/route.ts and app/api/writeright/analytics/route.ts compute from rows.
--   Share has POST of app/api/writeright/share/route.ts, its tokens in Token and its handler in
--   Create, and GET of app/api/writeright/public/share/[token]/route.ts in View.
--   Search is GET of app/api/writeright/search/route.ts: Query has the texts, Merge the results,
--   Handler the rate limit and the handler.
--   Exec/Ensures and Exec/Yields are rules for what holds when an action returns, and for actions
--   that always return. Reconciliation/Lifecycle is the diagram of an operation's phases.
--
-- Bounds: the clock is in milliseconds and any natural number; a list of outcomes or replies that
-- ends is a server that answers and a gateway that is down from there on. The loops run over a
-- batch, a list of tokens or the retries that are left. The loop of the event stream has fuel: 361
-- rounds, since each waits for 250 ms and the loop ends after 90 seconds. The channel's messages
-- are a list for each time the stream waits for something: those that come while Redis and the
-- database are asked are taken before that look, and those that come while the stream is closed
-- are taken before it ends. `String(n)` has n rounds, each of which prints a digit. A text is a
-- list of UTF-16 code units where its characters matter. The database is a record of actions, or
-- of single actions, which may do anything that a theorem does not exclude.
--
-- Not modelled: spans, logs and metrics; the expiry of keys, which is left to the server (the laws
-- speak of one moment, and of a positive time to live); a batch of commands of which only some are
-- carried out; the tables of the database; the work of closing a stream's subscription;
-- lib/gmail-service.ts, whose emails are an action; figures that are fractions (costs, average
-- scores; the rounded percentage of a share is a parameter); the user interface; the Python worker
-- and the gateway.
pub mod Common
pub mod Types
pub mod Errors
pub mod Redis
pub mod Exec
pub mod Commands
pub mod Queue
pub mod GmailClassifier
pub mod RedisClient
pub mod RustAuth
pub mod Secrets
pub mod Routes
pub mod Reconciliation
