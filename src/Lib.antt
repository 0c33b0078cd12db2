-- ===== src/Lib.antt =====
-- Formal model of actjs, a TypeScript actor runtime: actors keep their state in memory behind a
-- mailbox, and storage holds their snapshots, their event logs and their durable inboxes.
--
-- The parts and how they interact
-- A directory (src/runtime/directory.ts) keeps one host (src/runtime/host.ts) for each live actor. A
-- host takes messages from its mailbox (src/runtime/mailbox.ts) one at a time, runs the handler of its
-- class, and commits through the storage driver (src/storage/driver.ts, src/storage/memory.ts): an
-- event-sourced class appends events and folds them, another class schedules a snapshot. A cold start
-- loads the snapshot, replays the log behind it and puts the pending inbox into the mailbox. Reminders
-- (src/runtime/reminder-dispatcher.ts) arrive as tells. Calls pass the rate limiter (src/limits) and
-- the policy of the class (src/policy); capability tokens and their blocklist stand beside it. Class
-- versions are published by src/registry/publisher.ts, resolved by src/registry/resolver.ts and loaded by
-- src/runtime/loader.ts. src/runtime/runtime.ts puts these together for a caller; the hooks of src/server
-- stand in front of it, and src/client keeps the other end of a connection.
--
-- Which file models which part
--   Prelude          what the components share: Boolean tests, lists, JavaScript's Map and Set, sorting,
--                    results that may be an exception, keys with a test of equality
--   Storage          src/storage/memory.ts, one module for each group of methods: Actors, Snapshots,
--                    Events, Inbox, Reminders, Classes, Idempotency; Types has the records of
--                    src/storage/driver.ts and Driver the fields of MemoryStorageDriver. The children
--                    (Events.Log, Inbox.Pending, Inbox.Invariant, Snapshots.Laws ...) and Fencing prove
--   Runtime.Mailbox  src/runtime/mailbox.ts; Fifo has its history of puts, takes and closes
--   Runtime.Host     src/runtime/host.ts: State (fields), Activate (activate, resolveCtor,
--                    migrateSnapshot, replayEvents), Commit (handle, commitSwm, commitEs, flushSnapshot),
--                    Lifecycle (tell, call, the worker, deactivate, destroy); Same, Replay, Sourcing and
--                    Recovery prove. Runtime.Value has JavaScript values and normalizeEvent,
--                    Runtime.ActorClass what the host needs of src/actor.ts and src/event-sourced.ts
--   Runtime.Directory, Runtime.Loader, Runtime.Reminders
--                    src/runtime/directory.ts, loader.ts and reminder-dispatcher.ts
--   Limits           src/limits/token-bucket.ts and rate-limiter.ts
--   Policy           src/types/principal.ts and src/policy: Evaluate, Blocklist, Capability
--   Registry         src/registry: Resolver, Publisher, Signing
--   Audit            src/audit/auditor.ts
--   Runtime.Access, Runtime.Facade
--                    src/runtime/runtime.ts over the parts of Runtime, Limits and Policy: its state and checks,
--                    and its methods
--   Diff             src/codegen/diff.ts
--   Metrics          src/metrics: the counter of calls and the cap on its method labels
--   Server           src/server: ManifestTracker, Pin and IdempotencyHooks (src/server/hooks), Auth,
--                    SubscriptionRegistry, Errors
--   Client           src/client: Rpc (with what transport.ts does to frames), OfflineQueue, Calls
--                    (client.ts), Subscriptions
--   Examples         below each part, with AuthExamples, FacadeExamples, PartExamples and PublishExamples:
--                    concrete inputs
--
-- How state and operations correspond to the code
-- A method is a function from the state it reads to the state it leaves, under its name in snake case. A
-- driver method that throws returns an Outcome; the host's methods are actions that also keep what they
-- had changed when they threw. The clock is an argument, one reading for each driver operation and one
-- for each action. A promise of a call is a number, settled once. Where the code awaits, the model has
-- either one step (the memory driver answers at once) or two named ones (begin and settled of the
-- directory).
--
-- Numbers, bounds and fuel
-- Counts, times and bigint seqs are natural numbers; a snapshot's seq may be -1 and is an integer. The
-- token bucket counts thousandths of a token and does not round; the code computes in doubles, whose
-- rounding of a rate divided by 1000 may move a grant or a retry time by a last digit.
-- The hash of a source is cut to 64 bits as in the code. The worker's drain runs on the number of queued
-- items and one more. The resolver's queue runs on fuel, and running out of it is a result of its own;
-- fuel for the roots and for the dependencies of as many picks as there may be nodes is enough.
--
-- What is a parameter
-- The application's handlers, reducers, migrations and policies; fast-json-patch; semver; the TypeScript
-- compiler; JSON, base64url, regular expressions and the cryptography of node; the catalog of class
-- versions; the handler of an HTTP route, and the server's replies to a client.
--
-- What is not modelled
-- The PostgreSQL and Valkey driver, the HTTP and WebSocket routes, code generation beside its
-- line diff, the command line, logging and the metrics beside the counter of calls: network, SQL or output. Handlers that call other actors through the bridge,
-- optimistic mutations of the client, timers as such (their callbacks are modelled), and floating-point
-- rates.
pub mod Prelude
pub mod Storage
pub mod Runtime
pub mod Policy
pub mod Audit
pub mod Diff
pub mod Limits
pub mod Metrics
pub mod Registry
pub mod Server
pub mod Client
