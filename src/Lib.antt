-- ===== src/Lib.antt =====
-- A model of openwar, a flash-sale gateway in Go over Redis, NATS JetStream and Postgres.
--
-- A purchase goes through the gateway's waiting room to the order service, which takes a unit of stock
-- from one of several counters in Redis, marks a reservation and publishes an event; a worker stores
-- the order, and orders that are not paid are cancelled and their stock is given back.
--
-- - Breaker: `internal/resilience/circuitbreaker.go`. The mutex makes the part of `Execute` before the
--   operation and the part after it one step each (`begin`, `finish`); `execute` is both with the
--   operation between them. The clock's readings are arguments.
-- - Redis: the commands that the program sends, as a record of operations with their documented effects
--   as laws. Redis/Memory is a server that meets them. One trip (`Net`) is made, or its request is
--   lost, or its reply.
-- - Lua: the scripts of `internal/lua`. Redis runs a script as one step; an error that a command raises
--   ends admit_batch.lua, with what it did so far. Its TTL is in seconds; one below 0 acts as 0.
-- - Inventory: `internal/inventory/router.go`; Inventory/Keys and Inventory/Hash have the keys and the
--   hash of `shardFor`. An environment says how each trip goes; every trip is one call of the breaker.
-- - Seeder: `internal/inventory/seeder.go`.
-- - Seed: `cmd/gateway/seed.go` with the statements of `internal/store/store.go` on users and products.
-- - Room: `internal/waitingroom/room.go` and the tick of `internal/waitingroom/worker.go`. A pipeline is
--   one step. Room/Admission: what a batch is to do, and Room/Batch the loop that does it; Room/Scan: how
--   the tick finds its events among the keys; Room/Turn: its rounds.
-- - Store: `internal/store/store.go` on the schema of `migrations/000001_initial_schema.sql`; a statement
--   is one step.
-- - Migrations: `Migrate` of `migrations/migrations.go`, over the effects of the SQL files, and `Open` of
--   `internal/store/store.go`.
-- - Order: `internal/order/service.go`; the stream of NATS is the list of the messages it has stored.
--   Order/Worker: `handleOrder` of `cmd/worker/main.go` and `ArmTimeout`; the worker is a process of its
--   own. Order/Deliver: the worker's loops on one message; NATS delivers the message of an order or of a
--   timeout at most five times.
--   Order/Timeout: `internal/order/timeout.go`, `reconciler.go` and `dlq.go`.
-- - Sale: the atomic steps of all of these on the stock of one sku, interleaved as they like; the
--   operations refine them.
-- - Checkout: `internal/proxy/proxy.go` and the handler of `cmd/backend-demo/main.go`, which calls `Place`.
-- - Idempotency: `internal/middleware/idempotency/idempotency.go`; a handler's response is the list of
--   its writes.
-- - Bucket: `internal/lua/token_bucket.lua` and the limiter that calls it. The script counts in doubles,
--   which are an interface (`Floats`) with the laws of rounded, or of exact, arithmetic.
-- - Route: the route of a purchase in `internal/router/router.go` with every middleware, the limiter and
--   the idempotency keys included.
-- - Gateway: the chain of `internal/router/router.go` in front of a purchase with the middlewares of
--   `internal/middleware`, and the handlers of `internal/router/handlers.go`; the bucket's script is a
--   parameter here.
-- - Address: `clientIP`, `checkIPRateLimit` and `join` of `internal/router/handlers.go`.
-- - Base: the outer chain of `internal/router/router.go`, with recovery, request ids, the log and CORS, and
--   the health check.
-- - Config: `internal/config/config.go`.
-- - Streams: `internal/queue/queue.go`; NATS is a parameter. Boot: `main` of `cmd/gateway`, `cmd/worker` and
--   `cmd/backend-demo`, up to where they serve or exit.
-- - Tests: the theorems at concrete inputs.
--
-- Times are natural numbers of nanoseconds. Counts of stock are integers; int64 does not overflow below
-- 2^63 units. `shardFor` keeps its uint32 wrap-around. The loop of admit_batch.lua ends by itself: the
-- model runs it on the length of the queue plus one, and each round pops a session. `publish` tries
-- three times, and a message of an order or a timeout is delivered five times at most.
--
-- Not modelled: metrics; the shutdown of the processes; the expiry of keys, which are absent once it has
-- come; sessions, which are one cookie; and the code outside the repository: Redis, NATS, Postgres and the
-- Go libraries. Random bytes are arguments.
pub mod Common
pub mod Breaker
pub mod Redis
pub mod Lua
pub mod Inventory
pub mod Seeder
pub mod Seed
pub mod Room
pub mod Idempotency
pub mod Gateway
pub mod Bucket
pub mod Route
pub mod Config
pub mod Boot
pub mod Store
pub mod Streams
pub mod Migrations
pub mod Order
pub mod Sale
pub mod Checkout
pub mod Address
pub mod Base
pub mod Tests
