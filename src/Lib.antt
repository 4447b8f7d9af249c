-- ===== src/Lib.antt =====
-- A model of the data API of the recording service, a Rust program: an HTTP and WebSocket service
-- that keeps recording sessions, their audio chunks and what is derived from them in PostgreSQL and
-- an object store, and tells subscribers of the changes.
--
-- The parts and the files that model them:
--   State         src/state.rs: the statuses of a session and the accepted transitions; Names and
--                 Graph hold what the names and the sequences of transitions satisfy
--   Ids           src/ids.rs: pseudonyms, the `mixed` stream, tags; Shape says which texts are ids
--   Error         src/error.rs: the errors of the handlers and their HTTP status
--   Events        src/events.rs: the events of the bus
--   Metrics       src/metrics.rs: the registry and its rendering
--   Ws            src/routes/ws/: Filter (filter.rs), Queue (queue.rs), Session (session.rs); the
--                 children Meaning, Suffix, Quiet, Delivery, Heartbeat, Ending and Gauge hold what
--                 is shown of them
--   Db            src/db/ and migrations/: the tables (Db/Rows) and the statements of
--                 sessions, chunks, uniform resources, mute ranges, metadata, participants, users,
--                 display names, consent tokens, service sessions and the audit log; Uniform/Shapes
--                 holds the rows of the uniform resources, Uniform/Tags is about the tag that
--                 guards a patch, Uniform/Bulk about a bulk insertion, ConsentTokens/Open about the
--                 tokens that open a page, Chunks/Listing and AuditLog/Newest about what a listing
--                 and a query give
--   Storage       src/storage/mod.rs, mem.rs and s3.rs: the object store's interface, the one in
--                 memory, and the one over the client of the S3 library; S3/Deletion is about
--                 the deletion of many keys, Maps about both stores as maps
--   App           AppState of src/routes/mod.rs and the way a handler runs
--   Auth          src/auth/: the tokens, the middleware and the reaper; Guard and Tokens hold who
--                 gets past the middleware and for how long
--   Config        src/config.rs: the configuration from the environment; Bounds is about its numbers
--   Routes        src/routes/: the handlers, a file for each of the source's but Auth (auth.rs,
--                 admin.rs, audit.rs) and Health (health.rs, metrics.rs); their children hold what
--                 a run that succeeds has done, and when one fails
--   Router        build_router of src/routes/mod.rs: the requests and the handler of each; Paths
--                 holds the tables of routes of the files of src/routes/, with Overlap and
--                 Guarded about which request takes which route
--   History       the service over sequences of requests, reaper ticks and waits. Laws is the
--                 interface between the statements and the handlers: a relation on databases that
--                 every statement keeps (Laws) is kept by every handler (Sessions, Chunks, Mute,
--                 Participants, Users, UniformCrud), by every request (Serve) and by every history
--                 (Run); Log and Tombstones fill it for two relations, with Frame for the
--                 statements that touch neither the sessions nor the log. Valid fills it for the
--                 constraints of migrations/: its children Audio, People and Accounts hold the
--                 statements of the tables, Runs the history, and Pages and Streams what
--                 follows for a consent page and the listing of a stream
--   Start         src/main.rs and src/db/pool.rs: the start of the service; Running is about a
--                 service that has started
--   Base          helpers, with the keys of a table (Keys) and its order (Order); Tests holds the
--                 theorems applied to concrete inputs
--
-- A handler is a function from the world (the database, the objects of the store, the events sent,
-- the metrics, and what the environment decides: the instant, the random ids and tags, the time
-- that a call took) to its result and the new world; a request is served at one instant, and a wait
-- is a step of its own. A statement is a function from the time and the database to its result and
-- the new database; a constraint that it breaks makes it fail. A transaction that fails gives the
-- database back as it was and keeps its other effects, as the source does. The loop of a subscriber
-- is a function of the list of its turns, and what is shown of it holds of every such list, so no
-- fuel is needed.
--
-- Numbers are natural numbers and signed integers; the 64-bit counters of the registry wrap around
-- where the source adds with fetch_add, the drop counter of a queue saturates, and a chunk's number
-- is bounded by its column. Seconds of a histogram are held as nanoseconds.
--
-- Parameters: the object store (a record ObjectStore, of which the one in memory is an instance),
-- the printing of ids and times, and the parts of the HTTP libraries that an upload takes (a
-- record RequestLib). The theorems hold for all of them; one of a download takes as hypothesis that
-- the store reads back what a put that succeeded wrote (ReadsBack), which the store in memory does.
--
-- The middleware and the tokens take the header library's to_str, the random bytes, SHA-256 and the
-- printing in hexadecimal as parameters (RequestLib, TokenLib), and the S3 store the calls of the
-- client (Bucket). A theorem about the deletion of S3 objects takes as hypothesis what the service
-- promises of the deletion of one (IsConsistent), and the one that compares both stores also what it
-- promises of a put (IsStoring). A theorem about how long a token is known takes as hypothesis a window
-- below 2^63 seconds, which the source's cast to i64 leaves as it is. Those about a wipe of audio
-- take as hypothesis that the audit log takes its row: a row with a used id, or with U+0000 in a
-- text, makes the transaction fail and give the database back.
--
-- The tables of routes say nothing of how the router library matches a path: that is a parameter,
-- of which a theorem takes as hypothesis that a route matches only paths with as many segments as its
-- own, of which those that are no parameters are the same. What the start of the service takes of the
-- libraries is a record Platform; what is shown of a running service takes as hypothesis that the
-- migrator leaves a database that meets the constraints of its tables.
--
-- Not modelled: the set-up of the S3 client, of the pool and of tracing, the texts of error messages,
-- the JSON of rows (a response carries the row), failures of the connection to the database,
-- its refusal of U+0000 in the texts of tables other than the log, and interleavings of requests: the handlers run one after the other.
pub mod Base
pub mod State
pub mod Ids
pub mod Error
pub mod Events
pub mod Metrics
pub mod Ws
pub mod Db
pub mod Storage
pub mod App
pub mod Auth
pub mod Config
pub mod Routes
pub mod Router
pub mod History
pub mod Start
pub mod Tests
