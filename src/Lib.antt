-- ===== src/Lib.antt =====
-- The location tracker wrany: a gateway that takes batches of location events from devices, a bus,
-- and a worker that stores the events as raw points and finds trips in them.
--
-- The parts, and the files that model them:
-- - Gateway: `IngestBatch` and `StartSession` (services/tracking-gateway/internal/usecase/
--   tracker_ingestion.go) in Gateway/Ingest, over an interface `Services`; the ledger of published
--   events (storage/postgres/ingestion_dedup_repo.go) fills it in Gateway/Ledger. An early error keeps
--   what was published before it. Gateway/Socket is the WebSocket endpoint over it
--   (transport/http/websocket_handler.go): a loop over the frames of a connection with the session that
--   was accepted last.
-- - Gateway/Query: `GetPoints`, a page of raw points behind a cursor, `DeletePoint`, and the
--   ranking of `GetFastSegments` (usecase/tracking_query.go, storage/postgres/tracking_query_repo.go).
--   The order of the entries of a Go map is a parameter.
-- - Events: the payloads, checks and envelopes of libs/events.
-- - Intake: `Process` (services/tracking-worker/internal/usecase/location_event_processor.go), from
--   the bytes of a message to a raw point or a dead letter, and the ACK or NAK of it; Intake/Consume
--   gives the answer to the broker (services/tracking-worker/internal/transport/nats/
--   location_consumer.go) and has the broker deliver again, with a database that is up in some
--   deliveries and not in others.
-- - Noise: the pipeline of usecase/noise/pipeline.go, from raw to processed points.
-- - Detection: `ProcessBatch` of usecase/trip_detection.go, a state machine from processed points to
--   commands. `Run` holds the local variables of the function, one definition stands for each case of
--   its switch, and Detection/Protocol says independently what its commands may be.
-- - Job: `RunOnce`, `processPair`, `buildBatch` and `publishEvents` of usecase/trip_detection_job.go,
--   over the interface `TripDetectionRepository`.
-- - Store: storage/postgres/trip_repo.go as operations on tables, which fill that interface in
--   Store/Repository.
-- - Route: `FindBestMatch` and the resampling of lines, usecase/route_matching.go; in Route/Job the
--   cycle of usecase/route_matching_job.go, over an interface that Route/Repository fills with the
--   statements of storage/postgres/route_repo.go. Route/Links says how routes and links agree.
-- - Account: `Register`, `Login` and `Refresh` of services/tracking-gateway/internal/usecase/auth.go
--   and `RegisterDevice` of usecase/device.go, over interfaces that the statements of
--   storage/postgres/user_repo.go, token_repo.go and device_repo.go fill;
--   in Account/Http the authentication of requests and their handlers (transport/http/middleware.go,
--   auth_handler.go, me_handler.go, device_handler.go).
-- - Action: calls that change a state and answer a result, which Route/Job and Account are written in.
-- - Domain, Float64, Prelude: the shared data, the operations of float64, and helpers. Tests: runs.
--
-- Conventions. A nil dereference is the outer `none` of an Option. `Time` counts nanoseconds from
-- Go's zero time, which is 0; a difference stops at 0, so times before the zero time and the
-- saturation of durations at 2^63 nanoseconds are not modelled. The numbers of the settings and the
-- counters are not negative. `float64` is a type with operations and no laws, so nothing rests on
-- rounding. `uuid.New` is a numbered supply; JSON, the texts of uuids and errors, and the parsers
-- are parameters. A database that is down fails every statement; one transaction is atomic, and no
-- other writer runs beside it. In Route/Job and Account, each statement fails by itself, as a
-- schedule in the state says. Bcrypt, JWT, SHA-256, random numbers and the geometry of PostGIS are
-- parameters. The columns keep what is written (PostgreSQL rounds times to microseconds). The CHECK
-- constraints of the raw points are those of infra/migrations/0001_create_raw_location_points.up.sql
-- of the worker; the CHECK and foreign-key constraints of the other tables are taken to hold of what
-- is written. Rows have no order
-- but what a query sorts by; texts are compared bytewise. Every function of the model is
-- structurally recursive on its list, so that no fuel is used, but in `read_pages`, a client of
-- `GetPoints` that asks for a bounded number of pages; one page for each point and one more are
-- enough.
--
-- Not modelled: logs, metrics and traces; the broker's client; the deadlines and pings of a
-- WebSocket connection; the HTTP router and the handlers of queries; the other read-only queries;
-- the start of the processes.

pub mod Prelude
pub mod Float64
pub mod Action
pub mod Domain
pub mod Noise
pub mod Detection
pub mod Events
pub mod Job
pub mod Store
pub mod Gateway
pub mod Intake
pub mod Route
pub mod Account
pub mod Tests
