-- ===== src/Lib.antt =====
-- The two Go services of the repository: the file store of core-services-object-store and the sync
-- engine of core-services-sql-engine, with the tables of core-services-database that they work on.
--
-- The file store keeps the bytes of a file with a provider (an S3 store behind an interface) and a
-- row for it in the table stored_files. Its calls carry the tenant's id, and it emits an event when
-- a file is uploaded, processed or deleted. The sync engine copies the tables of registered source
-- databases into ingested_rows: a sync streams the rows of a table, upserts each of them by its
-- key, marks what it did not see as deleted, and records the changes, a job and a snapshot.
--
-- What the files model:
--   Prelude, Prelude/: the names that all files share; lists measured by native numbers, int64
--     values as signed numbers, text.
--   Exec: Go's error results. An action takes a state and gives a result and a state; what was
--     written before an error stays written. Its rules split a block at each of its steps.
--   Http: what the handlers of both services share. A handler goes on with a value or answers.
--   Table, Table/Laws, Table/Selected: a SQL table as a list of rows, in the order of insertion, and
--     what a query selects of it, said without the query.
--   FileStore: types.go, backend.go and events.go of core-services-object-store/pkg/filestore.
--     FileStore/Rows and FileStore/PgStore: pgstore.go, with the constraints of
--       core-services-database/scripts/init-object-store.sql. insertFileRecord is
--       insert_file_record, and so on for the other methods.
--     FileStore/Store: store.go. Store.Upload is upload, and so on for the other methods. Its child
--       Content says what a provider promises of the bytes (Stores).
--     FileStore/Minio: minio.go over minio-go's client, a record of operations on a state of its own.
--       NewMinioBackend is new_minio_backend, and its methods have their names; its child Promises
--       says what S3 documents (IsS3) and what backend.go promises (IsProvider).
--     FileStore/Server: the configuration and the store of cmd/server/main.go.
--     FileStore/Invariant, FileStore/Service, FileStore/Tenancy: histories of calls on the store.
--     FileStore/Api: internal/api of core-services-object-store. UploadFile of handlers/files.go is
--       upload_file of FileStore/Api/Handlers, and so on; handler gives each route of router.go its
--       handler.
--   Digestion: the records of core-services-sql-engine/internal/digestion/store/store.go.
--     Digestion/RowStore, Digestion/JobStore, Digestion/SourceStore, Digestion/SchemaStore: the
--       methods of store.go, by the tables that they work on. UpsertRow is upsert_row, and so on. The
--       last also has the cascades of core-services-database/scripts/init-platform.sql.
--     Digestion/Connector: connector/connector.go.
--     Digestion/Postgres: connector/postgres.go over pgxpool.Pool, whose answers to the queries are
--       fields of Pool; connect gives the Connector of a Driver, Digestion/Postgres/Types has mapType
--       and detectSemanticType, and Digestion/Postgres/Documented tables of the types they give. Digestion/Postgres/Pipe: the goroutine of StreamRows and the caller
--       who ranges over its channels, as moves on a Pipe in any order.
--     Digestion/Server: the configuration and maskPassword of cmd/server/main.go.
--     Digestion/Changes: changes.go, and buildRowKey of sync.go.
--     Digestion/Sync: sync.go, and connectorForSource of engine.go. The part of runFullSync that
--       follows StreamRows is sync_stream.
--     Digestion/Engine: engine.go. Digestion/Catalog: catalog.go.
--     Digestion/Discovery: discovery.go. Discover is discover; what follows once the tables are
--       listed is discover_listed. Its children say what it keeps, how it ends and what it stores.
--     Digestion/Api: internal/api of core-services-sql-engine. ListSources of handlers/digestion.go
--       is list_sources of Digestion/Api/Handlers, and so on. The goroutine of SyncSource runs before
--       the answer if the request is `prompt`; else it waits in the list `background` until
--       run_background.
--     Digestion/Scheduler: scheduler.go, over the library cron as a record of operations; IsCron
--       states what its documentation promises.
--
-- How state and outside code are modelled. A `World` holds the tables, the state of the provider,
-- the output of the emitter, and the number of outside calls so far. The records `Env` hold what
-- comes from packages that are not in the repository: whether the n-th statement fails, the time
-- and the fresh UUID at the n-th call, and encoding/json, fmt and sha256 as functions. The provider
-- is a record of operations on a state of its own, about which only FileStore/Store/Content assumes
-- something. A fault of a statement leaves the tables as they were; it also stands for values that a
-- column or a constraint refuses where that is not written out. Each statement is one step and calls do not interleave
-- within a method. UUIDs, times and int64 counters are natural numbers, and a counter wraps at 2 ^
-- 64; sizes, limits and offsets are signed. Where SQL promises no order the rows come in the order
-- of insertion, but where it takes one row of several (findDuplicateRecord) the field pick of Env
-- chooses it. Every loop recurs on the list that it reads, so no fuel is needed; a stream from a
-- source is the list of rows that it hands over and the error that follows, which is what
-- Digestion/Postgres/Pipe has of its channels.
--
-- Not modelled: minio-go's client and the start-up of the servers, PostgreSQL's answers to the
-- queries on a source, and Echo with its middleware and its choice of the handler; contexts and
-- their cancellation, but for the move cancel of a Pipe; log lines other than those of the emitter.
pub mod Http
pub mod Prelude
pub mod Exec
pub mod Table
pub mod FileStore
pub mod Digestion
