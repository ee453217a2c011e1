-- ===== src/Lib.antt =====
-- The telemetry pipeline: streamers send GPU readings to a message broker over gRPC, collectors
-- lease them from it, write them to PostgreSQL and acknowledge them, and a gateway serves them.
-- This library models the broker's storage engine, the MQ server over it, the streamer's rows and
-- retries, the collector's way to the database, and the gateway's pages.
--
-- - Message: `TelemetryMessage` of pkg/pb/mq.pb.go.
-- - Queue: internal/queue/broker.go, whose `Broker` the MQ server calls through the interface of
--   internal/queue/store.go.
--   - Queue/Ring: `deque` and `dlqRing`, circular buffers, against lists (Ring/Window, Ring/Refine).
--   - Queue/Heap: the calls of container/heap on `retryHeap`, as the Go library documents and
--     implements them, and the heap order (Heap/Array, Heap/Up, Heap/Down, Heap/Laws).
--   - Queue/Policy: `OverflowPolicy`, `BrokerConfig`, `applyDefaults`.
--   - Queue/Table: the lease map, and the sorted keys of a reclaim (Table/Laws, Table/Keys).
--   - Queue/Broker: the state, `requeue`, `backoff`, `Inspect`, `Close`; Broker/Enqueue: `Enqueue`
--     under its three policies, with the waits of a parked producer; Broker/Leasing: `Lease`,
--     `Ack`, `ReleaseLease`, `ReleaseConsumer`, `SweepExpired` and the sweeper; Broker/Dlq:
--     `DLQList` and `DLQReplay`. Broker/Lanes has the invariant, Lanes/Take and Lanes/Put the moves
--     of one message between a lane and an operation, Broker/Requeue the account of the messages
--     that every operation gives, and Broker/Runs any sequence of operations, with Runs/Kept and
--     Runs/Safe; Runs/Books and Runs/Ledger keep the books over it.
-- - Collector: `FromProto` of pkg/models/telemetry.go, and of internal/collector/collector.go
--   `persistBatch`, `isPoisonErr`, `deadLetterRow`, `persistResilient` and `flush`
--   (Collector/Healthy, Collector/Persist, Collector/Flush, Collector/Lasting, Collector/Durable,
--   and Collector/Redelivery with `InsertSQL`), `consumeStream` (Collector/Stream, with
--   Stream/Flushed, Stream/Tracked, Stream/Acks, Stream/Durable), and the reconnect loop of `Run`
--   (Collector/Runner).
-- - Server: internal/server/server.go over the broker. Server/Admission has `Produce`, the size of a
--   stream's credit window and the drain; Server/Batch `ProduceBatch` (Batch/Prefix, Batch/Order);
--   Server/Consume the send loop and the clean-up of `Consume` as a relation `Move`, within a
--   relation `Step` that has the client and the other handlers too (Consume/Held, Consume/Window,
--   Consume/Progress); Server/Control the handlers of internal/http; Server/Drain the drain loop of
--   cmd/mq/main.go. Queue/Broker/Holding has what the streams need of the broker.
-- - Streamer: of internal/streamer/streamer.go `produceBatchWithRetry` (Streamer/Retry),
--   `produceWithRetry` (Streamer/Unary), `recordToProto` and a pass of `StreamBatched`
--   (Streamer/Rows, with Rows/Sized and Rows/Prefix), and all passes and `Run` (Streamer/Passes).
-- - Pipeline: the streamer's batches at the server's `ProduceBatch`; Pipeline/Oversized those that
--   are too long for it.
-- - Commands: Commands/Mq what cmd/mq/main.go makes of the environment, to the server it starts.
-- - Smoke: the client of scripts/smoke/mqprobe/main.go, which tries a running broker
--   (Smoke/Accepted, Smoke/Refused, Smoke/Both).
-- - Database: pkg/db/read.go, each SQL statement as the test, order and limits that it asks of the
--   table (Database/Window, Database/Keyset, Database/Distinct).
-- - Gateway: internal/gateway/handler.go and cursor.go: the checks of a request (Gateway/Page), the
--   cursor (Gateway/Cursor), the handlers, their pages (Handlers/Offset), the list of GPUs
--   (Handlers/Listing) and a client that follows the cursors (Handlers/Named, Handlers/Walk).
-- - Config: `FromEnv` of internal/config/config.go and internal/collector/config.go, and
--   Config/Others that of the gateway, the streamer and pkg/db, over `os.Getenv` and `strconv`.
-- - The modules called Tests, with Queue/Samples, apply the theorems to concrete states.
--
-- State is passed explicitly. A method of the broker is one critical section under its mutex, so
-- it is one function on the state, and an interleaving is a sequence of operations. `Run` tells a
-- value from a panic (a nil pointer, an index out of range, a full deque) and from a loop that
-- used up its fuel. Fuel: the loop of `Enqueue` gets the length of the main lane and 2 rounds,
-- since a round that goes on has dropped a message; `DLQReplay` gets the length of the
-- dead-letter lane and 1; `persistResilient` the size of the batch and 1, since a half is
-- shorter. Ids and counters wrap at 64 bits, delivery counts at 32 bits, durations are int64 in
-- nanoseconds, and times are natural numbers of nanoseconds.
--
-- A message is weighed rather than compared: `stock w` is the weight `w` of all messages that the
-- broker holds, so that an equation for every `w` says that the same messages are held.
--
-- `make` panics on a length that the runtime cannot allocate: `new_broker` takes the lengths that it
-- can as a parameter.
--
-- The clock is an argument of the configuration, which gives its readings in turn. The database,
-- `time.Parse` and `protojson` are the fields of `Env`; `Healthy` states what PostgreSQL and pgx
-- document of a batch in one transaction, and that JSONB stores some payloads and refuses others.
--
-- Other goroutines: a parked `Enqueue` wakes in whatever state the others left, and a step of a
-- stream may be any operation of the broker for another consumer. The loop of `ProduceBatch` meets
-- at each message whatever state the other handlers have left, and the replay handler of
-- internal/http reads its statistics after whatever they did.
--
-- The collector's database is met twice: `Healthy` fails only on poisonous rows, and `IsLasting` may
-- fail at any time, but keeps what it has committed.
--
-- Not modelled: connections and their options, routing and JSON texts, goroutines that only wait,
-- tickers, logs and metrics, signals and listeners of the commands, and generated code.
pub mod Prelude
pub mod Message
pub mod Queue
pub mod Collector
pub mod Server
pub mod Config
pub mod Database
pub mod Gateway
pub mod Streamer
pub mod Commands
pub mod Pipeline
pub mod Smoke
