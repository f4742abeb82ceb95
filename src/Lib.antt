-- ===== src/Lib.antt =====
-- Corncrake, the submission API of the Central Statistics Office: the core of the server, modelled
-- operation by operation, and what makes it correct.
--
-- A client sends the payroll return of a holding for a quarter. The rate limiter counts requests per
-- address, a token says which holding the client is, the handlers check the holding, the tenant (the
-- kind of survey) validates the body, and the store keeps what was accepted.
--
-- The parts, and the files of this library that model them:
-- - Models: the types of internal/models/models.go. Times are nanoseconds, bodies are bytes.
-- - Store: the errors, parameters and results of internal/services/store.go and the interface
--   `SubmissionStore` as a record of operations over a state. Store/Memory is `MemoryStore`: `create`,
--   `get_by_id`, `get_run` and `list` are its methods, each one step on the state since the mutex
--   makes it one. Store/Ledger is the abstract store, a list of records that no program state holds;
--   Store/Memory/Represents, Reads, Listing and History relate the two. Store/Contract is what every
--   backend answers.
-- - Handlers/Submissions: internal/handlers/submissions.go over any store. A handler's early returns
--   are the monad `Checked` of Http, which also has the envelope of internal/handlers/respond.go.
--   Create says when a submission is accepted, Access who sees what.
-- - Tenant: internal/tenant/tenant.go; `register` gives `none` where `Register` panics.
-- - Ehecs: internal/tenants/ehecs. Schema and Logic are the two validators of ehecs.go; Conforms and
--   Rules say what they check without them. Codes and Lookups are lookups.go.
-- - RateLimit: internal/middleware/ratelimit.go. Level is what a bucket holds at a time, Schedule and
--   Admitted are about sequences of requests and clean-up ticks, Limit is the middleware.
-- - Auth: internal/middleware/auth.go. Tokens has the parser of golang-jwt as a parameter, and what
--   is relied on; Admission says who is let through, Software what a client's software is known as.
-- - Revocation: internal/middleware/revocation.go; Lasting is about histories of revocations and
--   ticks.
-- - Handlers/Lookups: internal/handlers/lookups.go and health.go. Served is about the lookups,
--   Quarters about the reporting periods.
-- - Server: main.go, the middlewares in their order and the dispatch to the handlers; chi's
--   matching of routes is a parameter. Stored says how the store can change, Gates what stands
--   before a handler; Keys is `buildAuthConfig`, Start is the body of `main`, and Started says what
--   has to be there for it. Trace is about the states that requests and clean-ups lead to, Kept and
--   Backends about what the store has in them and which request of the history put it there, Shown
--   about what such a server shows, Answering about panics, Unrevoked about the revoked tokens.
--   Written has the logger and the header fields, Visits says what the limiter sees of a server,
--   and Bounded how much of an address is served.
-- - Sql: internal/services/stores.go over a database, which is a state with `Exec` and `Query`.
--   Postgres and SqlServer are the two stores with the texts of Statements; Scan has the scan
--   helpers that they share. Executes says what the statements do to a table, for the texts and
--   numbers that its columns take and with a collation as a parameter; Loops is about the loops
--   over the rows; Holds, Calls, Insertion, Answers and Runs hold the stores to the ledger, through
--   Store/Contract, which the memory store meets too; Agreement puts the backends side by side, and
--   Outage is about a database that does not answer. Table is a concrete database, for the tests.
--   Handlers/Submissions/Database and Outage are the handlers over these stores.
-- - Database: internal/services/db.go; Choice says which backend is started.
-- - Prelude, GoMap, SliceSort and Text: what the program uses of Go, namely `int` with its
--   wrap-around, maps, `sort.Slice`, the order of `range`, strings and strconv.
-- - Samples: the values of the tests, which stand in the modules named Tests.
--
-- Parameters of the model: golang-jwt's parser at each time (a token may expire), chi's route
-- matching and its RealIP, the databases, encoding/json (how a body is decoded), `float64` with
-- its comparisons and formats (numbers that are no NaN, as JSON has no other), unicode.ToLower,
-- the sort and the order of a `range`. No more is used of them than their documents promise, and
-- it is named: Verifies is about the parser, IsTotal about `float64`, Executes and ReadsBack about
-- a database and the JSON of the warnings in it, ComparesLetters about its collation. The level of
-- a bucket is exact: tokens are counted in billionths, and the roundings of `float64` are not
-- modelled.
--
-- The recursions are structural, but for `itoa`, which has its number as fuel: the number has no more
-- digits than that, and reading back gives the number.
--
-- Not modelled: the database drivers, which are imports; of main.go, the level of the log, the
-- listener, and of a log line the byte count, the latency and the id of the request; log lines of other
-- files.
pub mod Prelude
pub mod GoMap
pub mod SliceSort
pub mod Text
pub mod Models
pub mod Store
pub mod Tenant
pub mod Ehecs
pub mod Http
pub mod Handlers
pub mod RateLimit
pub mod Revocation
pub mod Auth
pub mod Server
pub mod Sql
pub mod Database
pub mod Samples
