-- ===== src/Lib.antt =====
-- Wallet ledger: the Go services of the repository, modelled as definitions that run and proved by
-- theorems about them.
--
-- The wallet service (services/wallet) keeps wallets, transactions and an outbox in PostgreSQL. Its
-- gRPC server checks a request and calls the store; the store moves money in one database transaction,
-- under optimistic locks and with retries, and writes an event into the outbox in the same transaction.
-- A relay takes the unsent rows of the outbox to Kafka and marks them. The gateway (services/gateway)
-- is the REST API in front: it checks the token, counts requests in Redis, calls the wallet service and
-- turns its status into a response. Both processes share internal/platform.
--
-- Files and code:
--   Base: names of the libraries, tests on native numbers, lists, signed integers.
--   Store.Schema, Store.Write, Store.Commit: the tables of db/migrations/V2__wallet.sql, the constraints,
--     and what each operation of services/wallet/store.go commits, as one step on the tables (`land`).
--   Store.Session, Store.Query: a session of the database and the statements of store.go.
--   Store.Money: Deposit, Transfer and withRetries. Store.Wallets: CreateWallet, GetWalletByUser and
--     GetTransaction, the first under any schedule in Store.Wallets.Create.
--   Store.Trace: the executions of a session among others, and how one call ends. Store.Invariant: what
--     sound tables are. Store.Calls: Deposit and Transfer under any schedule. Store.Alone: the same calls
--     undisturbed. Store.Moves: what all operations do to the tables. Store.Locks: the locks that the
--     statements take, and transactions that wait for one another.
--   Relay: services/wallet/outbox.go, a pass (publishBatch), the cleanup and the gauges. Relay.Loop: the
--     loop around the passes. Relay.Housekeeping: the loop with housekeeping beside it. Relay.Order,
--     Relay.Drain and Relay.Overtake: the order in which rows are sent, by one relay and by several.
--     Relay.Pods: passes of several pods that interleave, each with its locked batch, and their deletion of
--     sent rows; Relay.Pods.Apart, Relay.Pods.Gone and Relay.Pods.Once: what they may
--     share and send.
--   Server: services/wallet/server.go, with recordResult and isBusinessError of services/wallet/metrics.go.
--     Server.Metrics: the interceptor of metrics.go. Server.Moves and Server.Payments: the handlers over
--     the tables.
--   Gateway.Http: the bodies, texts and statuses of services/gateway/httpx.go and walletclient.go.
--     Gateway.RateLimit: ratelimit.go. Gateway.Api: requireAuth and the handlers of handlers.go that call
--     the wallet service, over the interface WalletClient. Gateway.Accounts: register and login of
--     handlers.go, over the table of db/migrations/V1__auth.sql. Gateway.Tokens: auth.go.
--     Gateway.ClientIp: clientIP of httpx.go. Gateway.Client: the client of walletclient.go, which fills
--     WalletClient with the handlers of Server behind a connection that can fail.
--   Gateway.Routes: the HTTP server of services/gateway/main.go, each route with its middleware, and
--     observe around all: a request runs from its header to the tables of Store. Gateway.Routes.Moves,
--     Gateway.Routes.PayOnce, Gateway.Routes.Observe and Gateway.Routes.Visible: runs of requests, and
--     what a request shows. Gateway.Routes.Sample: the input of its tests.
--   Platform: internal/platform, configuration, readiness, shutdown, the ops server and the logger.
--     Platform.Process: the main functions of services/wallet/main.go and services/gateway/main.go.
--   The modules called Tests hold runs at concrete inputs.
--
-- How state is modelled. A database session is a function from a `World` to a result and a `World`: the
-- committed tables, the writes that the open transaction has pending, and a schedule of events. Before a
-- statement takes effect one event happens: nothing, a commit of another session, or a failure; a COMMIT
-- can also take effect and lose its answer. This is READ COMMITTED as PostgreSQL documents it: a
-- statement sees what is committed and what its own transaction has written. Row locks and unique
-- indexes make a commit of another session wait while it conflicts with what is pending (`blocked`); such
-- a commit is left out of the schedule at that point, and may come later. A schedule that has run out is
-- quiet, so every definition is total, and theorems over all schedules cover every interleaving of
-- statements with whole commits of others. Deadlocks and cancellations are failures of a statement.
-- UUIDs are their 128-bit numbers, whose order is that of the canonical text; instants are microseconds;
-- the values that the database generates come from a parameter `Generator`, of which nothing is assumed:
-- a value that is already taken is a violation of a unique index.
--
-- History. The tables keep the rows that the hourly DELETE removes from the outbox in a field of their own
-- (`deleted`), which no statement of the source reads: it says what has become of an event.
--
-- Integers. Amounts are signed; the negation of Go's int64 wraps, and the bigint column and its CHECK
-- bound a sum. The shift of the backoff is reduced modulo 2^64 and read as a signed number.
--
-- Failures between the processes. A call of the wallet service is answered, does not reach a server, or
-- runs and is not heard of; a handler that panics leaves the caller with a status that the library makes
-- up. Redis counts, does not count, or counts unheard. Each is given with the request, so theorems over
-- all requests cover every combination.
--
-- Locks. Store.Session lets other sessions commit between statements and leaves the waiting out;
-- Store.Locks has the waiting alone: a session takes its locks in the order of its statements, keeps
-- them to its end, and commits or is rolled back. The locks of the DELETE of sent rows are left out. Ranks of locks are numbers, rows by their ids below any
-- bound that is above all of them, such as 2^128.
--
-- Loops. withRetries is recursion on the attempts that are left, the relay's loop on the list of its
-- turns, a run of locks on its steps, of which there is a bound: no fuel is added to what the source
-- bounds itself, or what the environment gives.
--
-- Not modelled. The foreign keys of transactions: no statement deletes a wallet, and a transaction names
-- wallets that it has read. The text of timestamps and the JSON of events. bcrypt, JWT, UUIDs, JSON,
-- the normal form of an address and its parser, which are parameters. Paths that Go's ServeMux would
-- clean first. Log lines, measured durations, the declarations of metrics and the counter of published
-- rows by topic. The end of a process by a server that fails. The generated protocol buffers, and the
-- services in other languages (ledger, fraud, notification), which read the events.
pub mod Base
pub mod Store
pub mod Relay
pub mod Server
pub mod Gateway
pub mod Platform
