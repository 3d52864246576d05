-- ===== src/Lib.antt =====
-- durablego: a durable workflow engine, whose activities are handed to workers under leases.
--
-- A client starts a workflow, a list of named activities that depend on each other by name. A worker
-- claims a ready activity, and holds it under a lease that the claim's fencing token names, until it
-- completes it, fails it, or lets the lease run out. A scheduler pass takes expired leases back and
-- makes due retries ready. internal/execution/engine.go holds all of this in memory behind one mutex.
--
-- How the files correspond to the code:
--   Base, and its children: maps, lists, texts and integers that all parts share.
--   Types: the types at the top of internal/execution/engine.go. A field of type time.Time is a
--     natural number, in nanoseconds from the zero time, which IsZero tests; a time.Duration is one
--     too where the code has made it positive.
--   Board: the tables of workflows and activities and their counters, with dependenciesCompleteLocked
--     and the loop of completeWorkflowIfDoneLocked, which only read them.
--   Engine/State: the Engine struct, New, SetClock, appendEventLocked and touchWorkflowLocked. A method
--     is an action on the struct that may panic (`none`); each call of the clock is a reading of a
--     function that is a parameter, so no theorem assumes that time goes forward.
--   Engine/Locked: currentLease and the other helpers that run under the mutex.
--   Engine/Start, Claim, Lease, Cancel, Sweep, Reads: Start; Claim; Heartbeat, Complete and Fail;
--     Cancel; RunSchedulerPass; Workflow and ListWorkflows.
--   Engine/History: sequences of whole calls. The mutex is held over each call, so these are the
--     orders in which concurrent callers can be served.
--   Spec/Move, Spec/Later, Spec/Invariant: the moves of the tables that the engine may make, what no
--     move takes back, and the invariant. Engine/Steps, and the Steps file beside each operation,
--     show that every operation is a sequence of such moves, readings of the clock and log entries.
--   Api, and its children: internal/api/server.go. Backend is its interface, which the engine fills;
--     Messages are the requests and responses; Server has the handlers, the routes and
--     authorizeMutation. What encoding/json makes of a body is a parameter, and so is the route of a
--     request, which the mux of net/http finds.
--   Persistence, and its children: internal/persistence/postgres.go. Tables are the rows of the tables
--     of migrations/001_init.sql; Session is the Postgres struct with what pgx gives it; Helpers, Start,
--     Claim, Lease, Cancel and Reads are its methods and the functions below them, each SQL statement a
--     function on the tables. The driver is a parameter: which of its calls fail, and with what, the time
--     at which a transaction begins, the random uuids, the values of sequences, and the order in which
--     RETURNING gives rows. History is sequences of whole calls. Follows and Ends, with their children,
--     are the rules by which the theorems of Safety, Fencing, Claims, Idempotence, Completed and Passes
--     are proved, and Progress has those for a driver that meets no fault. Overlap has two transactions
--     that overlap; Serving is cmd/api/main.go, the server of Api over this backend, Working is
--     cmd/worker/main.go, the worker, and Retries is a client that repeats its request.
--   Worker: pkg/worker/worker.go. execute is a function, and the loop of Run with its semaphore is a
--     step relation in which other users of the backend take turns. A handler is a parameter, a function.
--   Scheduler: internal/scheduler/scheduler.go, a function of what each select finds. Scheduler/Passes
--     has it over the Postgres backend, as in cmd/scheduler/main.go.
--   Client: pkg/client/client.go over a network and a coding, which are parameters; Client/Exchange
--     joins it to the server of Api.
--   Config, Telemetry: internal/config/config.go and internal/telemetry/metrics.go.
--   Examples, and its children: runs of a workflow of two activities; Examples/Database and its
--     children have those of the Postgres backend.
--
-- Machine integers: the counters and tokens go up by one and are taken as unbounded, since 2^63 calls
-- are out of reach; the delay of a retry, which the code multiplies in an int64, keeps its wrap-around.
-- Loops are recursions on lists, and need no fuel. The map of sorted ids is sorted by insertion, which
-- sort.Strings agrees with on ids, all of which are different.
--
-- A transaction of the Postgres backend sees what is committed and runs alone, but for the rows that
-- other transactions hold locked, which SKIP LOCKED passes over and which are a parameter: waits for
-- locks and deadlocks are not modelled. Of what READ COMMITTED lets two transactions do to each other,
-- Persistence/Overlap has one case, two Completes of different rows: what they leave together is a
-- hypothesis there, as the database documents it. A call of the driver that fails has changed nothing,
-- but for Commit, which may have taken effect or not, as a parameter says. The hook crashAfterCommit and
-- Close leave the state alone and are left out. The integers of the rows are natural numbers, and uuids
-- are texts.
--
-- Not modelled: the other commands (demonstrations and load generators), the
-- dashboard (web), and the tests. The worker's Run without its exits (a cancelled context, an error of
-- Claim), its wait for the goroutines, its sleep and its log; a handler always returns. The timeout of
-- the client is an error of its network. A fencing token in a request's body is a natural number: a
-- negative one, which no row has, is left out. The order in which ListWorkflows returns the workflows
-- is a parameter: Go leaves it open between equal times.
pub mod Base
pub mod Types
pub mod Board
pub mod Engine
pub mod Spec
pub mod Api
pub mod Persistence
pub mod Worker
pub mod Config
pub mod Client
pub mod Scheduler
pub mod Telemetry
pub mod Examples
