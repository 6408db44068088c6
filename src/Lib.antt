-- ===== src/Lib.antt =====
-- A model of investment-engine: an HTTP API that accepts orders, a consumer that executes them, and
-- a price service.
--
-- The parts and how they interact. `CreateOrder` (internal/order/handler.go) checks a request,
-- stores a PENDING order (internal/order/store.go) and publishes the event `order.created`
-- (internal/order/events.go). The consumer (internal/execution/consumer.go) takes each delivery of
-- this event to its handler (internal/execution/handler.go), which asks the price service
-- (internal/priceservice) for a price and calls `ExecuteOrder` of the store; a failure is classified
-- (internal/execution/failure.go), and the delivery is acked, sent to the retry queue or rejected to
-- the dead letters. `ListOrders` serves pages of orders with cursors (internal/pagination).
--
-- Which file models which part:
--   Order/Model, Order/Event   internal/order/model.go; the event of internal/order/events.go
--   Order/Wire                 the JSON of that event by its struct tags, as encoding/json writes and
--                              reads it; System/Wire follows it from a request to the consumer
--   Order/Store                Create and ExecuteOrder of internal/order/store.go, over the two
--                              tables of schema.sql as lists of rows
--   Order/Query, Order/Listing List of internal/order/store.go: the conditions and arguments that it
--                              builds, what PostgreSQL makes of them, the page and its cursor
--   Order/Api, Order/CreateOrder, Order/ListOrders   internal/order/handler.go
--   Order/CreateOrder/Decoding how CreateOrder reads a body: the limit of 1 KiB, the struct tags
--   Json                       what the program uses of encoding/json
--   Order/PostgresStore, Order/AmqpPublisher   the store and the publisher as what the binaries
--                              hand to the handlers
--   Execution/Failure, Execution/Handler   the files of these names in internal/execution
--   Execution/Headers, Tracing the headers of messages; the carrier of internal/rabbitmq/tracing.go,
--                              and its two functions over a propagator
--   Execution/Consumer         internal/execution/consumer.go
--   Order/Publisher            PublishOrderCreated and awaitReturn of internal/order/events.go
--   Execution/Topology         internal/execution/topology.go, with SetupMessaging and the helpers of
--                              internal/rabbitmq/connection.go; Routing says what they mean
--   PriceService               internal/priceservice/client.go and server.go
--   Pagination                 internal/pagination/cursor.go, with URL-safe base64
--   Http                       internal/apierror, internal/auth, the bodies of responses
--   Strings, Float64, Clock, GoError, Result   what the program uses of Go: texts, float64 as bit
--                              patterns, durations, error values with %w and errors.Is, (value, error)
--   System                     the API and any number of consumers over one database; System/Recovery
--                              follows one delivery through an outage
--   System/Transactions        calls of ExecuteOrder that run at the same time, a statement of the
--                              source at a time
--   System/Messages            the events in the queues between the API and the consumers; the loop of a
--                              consumer as moves of these
--   Server                     the routes of cmd/api/main.go and the middleware of
--                              internal/metrics/middleware.go, with its counter and histogram
--   Process                    main and run of cmd/api, cmd/consumer and cmd/priceservice
--   Process/Goroutines         the goroutines of cmd/api/main.go and the channels between them
--   Process/Startup            internal/postgres, internal/telemetry, internal/logging, and the calls
--                              of internal/rabbitmq/connection.go and internal/priceservice/client.go
--                              that open and close connections
--   Tests                      the theorems at concrete inputs
--
-- How state is modelled: a function takes the state and returns it with its answer. What the
-- environment answers is an argument: which calls of the driver fail and how (also a commit that is
-- done although its reply is lost), ids and times that are drawn, the price service, the error of
-- publishing. A definition keeps the name of the Go function, in snake case. The loop of the
-- consumer runs over the list of what its `select` sees.
--
-- Fuel: `walk`, `walk_live` and `follow` of a listing bound the number of pages, and one page more
-- than there are matching orders is enough; no definition that models the source has fuel.
--
-- Assumed of other code, as records of hypotheses: `IsStatusCode` (status.Code of gRPC sees through
-- %w), `IsCursorJson` (encoding/json writes a cursor before the year 10000 as bytes and reads it
-- back), `IsWire` (an int that fits 32 bits arrives as an int32), `IsLiterals` (numbers, times and
-- identifiers that were written to JSON are read back, and ASCII stays as it is), `IsPropagator` (a
-- propagator of OpenTelemetry reads and writes its own fields only, and hands on the trace).
-- PostgreSQL is modelled as far as the statements of the source use it. Most modules take each call
-- of the store as a transaction that happens at one point in time; System/Transactions is about the
-- interleavings of its statements, under READ COMMITTED with locks on changed rows and on inserted
-- keys.
--
-- In System/Messages the broker may lose any message that it is handed, although the publish has
-- returned nil: the channels are not in confirm mode, and `awaitReturn` only logs an event that
-- comes back as unroutable. What is lost is kept account of. What is in a durable queue stays there
-- until it is settled or expires. The goroutines in Process/Goroutines carry two notes that no
-- variable of the program holds: with what error the server failed and the connection was lost.
--
-- Not modelled: which records are logged and which spans started, contexts and timeouts; the metrics
-- servers, which share no state with the rest; what OpenTelemetry, Prometheus and slog do with what
-- they are given; generated code.
mod Prelude
pub mod GoError
pub mod Result
pub mod Float64
pub mod Order
pub mod Execution
pub mod PriceService
pub mod Strings
pub mod Http
pub mod Json
pub mod Clock
pub mod Tracing
pub mod Pagination
pub mod System
pub mod Server
pub mod Process
pub mod Tests
