-- ===== src/Lib.antt =====
-- agentmsg: a service through which agents send each other messages. An HTTP gateway authenticates a
-- request, limits its rate and calls a service; the services keep agents, messages and
-- acknowledgements in PostgreSQL and queue accepted messages on a Redis list; the message engine
-- takes them from the list, publishes each to the channel of every recipient, and keeps what it could
-- not publish in a dead letter table that it retries.
--
-- What stands for what:
-- - Model: the records of internal/model, with a `uuid.UUID` as a number and a time in nanoseconds.
-- - Services: what the program calls and does not contain. `Services.Table` is a table of the
--   database, `Services.Redis` the data types of Redis, each with its state hidden and the laws that
--   the program relies on; `Services.World` collects them as `Services`, which every part takes as
--   an instance, and their states as `World`. Any call may fail. `Services.Memory` is an instance in
--   memory with a schedule of faults.
-- - Repository: the statements of internal/repository/postgres.go and the calls of redis.go.
--   Migrations is `MigrationRunner` (migration_runner.go).
-- - Engine: `MessageEngine` and `DeadLetterQueue` (internal/engine/engine.go) in Channels, Worker,
--   Submission, Lifecycle and DeadLetter; `ExactlyOnceEngine` (exactly_once.go) in ExactlyOnce,
--   and `IdempotencyTracker`, of the same file, in IdempotencyTracker.
-- - Service: internal/service. Messages is `MessageService`, Subscriptions its subscriptions, Agents
--   `AgentService`, Tokens `AuthService`, Idempotency `IdempotencyService`, and Billing
--   `BillingService` over the repositories of internal/repository/billing.go.
-- - Middleware: `Authenticate`, `RateLimit` and `AuditLog` (Audit), all of
--   internal/middleware/middleware.go.
-- - Api: the handlers of internal/api. Messages, Agents and Subscriptions are those of handler.go,
--   Batch those of handler_batch.go, Responses is responses.go, Binding the decoding of a body, and
--   Gateway the middlewares around a handler.
-- - Sdk: the Go client of sdk/go/agentmsg. Client is client.go over the exchanges of Http, Messages
--   is message.go, WebSocket is websocket.go, and Served the client over the handlers of Api.
-- - Config: internal/config, over an environment that is a function of the variable's name.
-- - Exec: Go's `(value, error)` results over the world. What was written before an error stays
--   written.
--
-- The loop of a worker, which ends when its context is done, is `process_worker` on a list of
-- draws, one for each round, of any length; every other loop is over a list. There is no fuel. What
-- can happen to the goroutines of an engine, in any order, is a step relation (Engine.Lifecycle). The
-- results of `time.Now()` and `uuid.New()` are arguments. Two calls of different clients that
-- interleave are modelled where a definition is split at the point between them, as `probe` and
-- `settle` of Engine.ExactlyOnce are.
--
-- Integers: counts and durations that the program never makes negative are natural numbers, and the
-- limits and offsets that a caller can make negative are `ℤ`. So the limit of retries is a natural
-- number: cmd/message-engine/main.go gives 3, although `NewMessageEngine` would keep a negative one.
-- A 64-bit integer comes near its bounds only in Config, where `wrap64` is the wrap-around of a
-- duration.
--
-- Not modelled: tracing, metrics, logs and health checks; connecting to the services; creating
-- tenants; the arithmetic of floating point numbers and the calendar, which are arguments; the
-- programs under cmd, which wire the parts together; the write loop of the WebSocket client and
-- `ReadWSMessage`, which hand messages between channels and a connection; and the SDKs in other
-- languages.
pub mod Prelude
pub mod Exec
pub mod Model
pub mod Services
pub mod Repository
pub mod Engine
pub mod Service
pub mod Middleware
pub mod Api
pub mod Config
pub mod Sdk
mod Tests
