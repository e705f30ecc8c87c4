-- ===== src/Lib.antt =====
-- Verification of the backend templates: a Litestar backend (src/litestar_backend/src) and a worker
-- service (src/event_microservice/src) that exchange events over Valkey streams.
--
-- The program. The media context of the backend stores uploaded videos. An upload writes the video,
-- an outbox message and an idempotency claim in one transaction; the message is relayed to the
-- stream video_uploaded. The worker service consumes it, submits three jobs for the video, joins
-- their completions and publishes processing_started, processed or processing_failed on the stream
-- video_status, which a consumer of the backend applies to the video. The auth context decides who a
-- request comes from: JWT pairs with rotation and a denylist, API keys and a static admin token.
--
-- Which file models what.
--   Base: tests, lists over the native numbers, and actions that may raise and change a state
--     (`Exec`); what was done before a raise stays done.
--   Shared: the exceptions (shared/generics/errors.py), JSON values, the SQL of the repositories as
--     functions of tables, a Postgres server (Shared.Postgres), transactions as scripts
--     (Shared.Transactions, for shared/adapters/driven/postgres/uow.py) and as sessions
--     (Shared.Sessions), keyset cursors (shared/generics/pagination.py), and the outbox relay
--     (Shared.Outbox, for shared/adapters/driven/outbox_relay.py), the problems that answer
--     exceptions (Shared.Problems, for shared/adapters/problem_details.py and the table of
--     root/composition/app.py) and readiness (Shared.Readiness).
--   Media: media_example. Media.Video is domain/video_agg.py; Interfaces and UseCases are app;
--     Tables, Statements and Repo are ports/driven; Facade is ports/driving; Feed is the live feed;
--     StatusConsumer is adapters/driving/status_consumer.py; Sweeper is
--     shared/adapters/driven/idempotency_sweeper.py; Http is adapters/driving/video_controller.py.
--     Upload, Status, Deletion and Listing hold the proofs.
--   Auth: auth. Domain, Interfaces and UseCases follow its folders; Jwt is ports/driven/jwt_service.py,
--     Denylist is valkey_denylist.py, Resolvers are the token resolvers, Facade is auth_facade.py,
--     Middleware is adapters/auth_middleware.py with guards.py, Http is adapters/driving/api. Sql is
--     sql_user_repo.py, sql_api_key_repo.py and orm_models.py with the constraints of migrations/auth. Access,
--     Revocation and Login hold proofs.
--   Admin: admin/log. Log.Source is adapters/driven/log_file_source.py over bytes (Log.Bytes), with
--     Streaming and Following; Entry is domain, Reader is ports/driven/file_log_reader.py, Export is
--     app/export_logs_uc.py, Facade is ports/driving/logs_facade.py. What the operating system shows
--     at each call is an argument, or a disk at each moment.
--   Processing: event_microservice/src/media_processing. Ports states the contracts of the driven
--     ports; UseCases and Entrypoints are the code; Join, Fanout and Failure hold the proofs. Adapters
--     is ports/driven over Valkey and the job queue, Adapters.Shown the view of what they hold, and
--     Adapters.Refinement fills the contracts.
--   Tests: servers in memory with scripts of faults, and the theorems at concrete inputs.
--
-- State and operations. A method becomes an action of a world; a dict of ports becomes a record. A
-- database is a parameter with the tables that are committed and those that the open transaction
-- sees: each statement may fail, and a COMMIT that fails may still have taken effect. Valkey, the
-- channels plugin, the JWT codec, hashes, uuid and date texts are parameters with their documented
-- behaviour as laws; the tests show instances. Random identifiers and clock readings are arguments.
-- Instants are microseconds since the epoch. Loops over batches are structural; of the endless ones
-- only the cycles are modelled. The two loops that read the log file in chunks take fuel: one more
-- than the bytes there are, which is enough for any positive size of a chunk, as proved.
--
-- Not modelled: dependency injection, settings and start-up (root, provider.py), logging, metrics,
-- OpenAPI, the validation of requests, the HTTP controllers of uploads, the live feed and the admin
-- console, its pages and the cursor token of its log viewer, and the database example
-- (db_example_litestar). The keys of the worker in Valkey do not expire. UTF-8 decoding, orjson,
-- csv.writer and the text of a JSON value are parameters. A log file is not
-- changed while one call reads it.
pub mod Base
pub mod Shared
pub mod Media
pub mod Admin
pub mod Auth
pub mod Processing
pub mod Tests
