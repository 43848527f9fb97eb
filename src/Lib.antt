-- ===== src/Lib.antt =====
-- Nimbus: a multi-tenant file storage service. Files are cut into content-addressed chunks, which a
-- client uploads to several MinIO nodes and which organisations share by deduplication.
--
-- The parts, and the files that model them (paths are from the repository's root):
--   * Storage: backend/internal/storage. Storage/Ring is ring.go (the consistent-hash ring and the
--     choice of replicas), Storage/Breaker is breaker.go (one node's circuit breaker), Storage/Router
--     is router.go (the health view, the probes that feed it, and Resolve with its latency tiers);
--     Storage/Locations is repository.go, the statements on chunk_locations, and Storage/Repair is
--     repair.go, the pass that re-verifies what a node holds.
--   * Upload: backend/internal/upload. Upload/Repository is repository.go, one function per SQL
--     statement; Upload/Service is service.go (InitUpload, checkQuota, InitChunk, CommitChunk,
--     CompleteUpload). The service takes the router, the files, folders, members, activity, events,
--     usage and quota ports as one record, `Ports`.
--   * Gc: backend/internal/gc/sweeper.go, the mark-and-sweep collector of unreferenced chunks.
--   * Org: backend/internal/org, the organisations, their members and roles.
--     Org/Cache is membership_cache.go and middleware.go, the cached role check of the routes.
--   * Sharing: backend/internal/sharing, the share links and what their tokens give access to.
--   * Folder: backend/internal/folder, the folder tree: moves, cascades through the trash, the purge.
--   * Auth: backend/internal/auth. Auth.antt is repository.go, the sessions: refresh tokens and their
--     rotation; Auth/Redis, Auth/World and Auth/Service are service.go and totp.go, the two-step login
--     and the tokens, on an action type of their own.
--   * File: backend/internal/file, the files and their versions: repository.go in File/Rows,
--     File/Statements and File/Repository, service.go in File/Service.
--   * Processing: backend/internal/processing/processor.go, the worker that reassembles uploaded
--     versions and stores their thumbnails.
--   * Events: backend/internal/events, the consumer of upload events, the table of dead events and their
--     retry.
--   * System: the wiring of backend/cmd/api/wire_upload.go, where the file repository fills the file
--     ports of the upload service, and histories of all these operations on one database.
--   * Database: the tables that Upload, File, Gc and Storage share, as one record of lists, and the actions
--     on them; Base has the names and list lemmas that all parts use.
-- The upload service asks the router for replicas, records in the tables which node holds which chunk,
-- and hands complete chunk lists to the file port; the collector reads the same tables and deletes
-- what no version, session or lease protects.
--
-- State is passed on explicitly. An action on the tables (`M`) is a function of the world (tables,
-- server time, faults ahead, next identifier) to a result and the world it leaves, also where it
-- fails: a call of the database fails where the list of faults says so, and what earlier calls wrote
-- stays, since the upload code opens no transaction; a transaction of the file code
-- is one such call, whose statements change the tables together or not at all. The organisation,
-- sharing, folder and session operations, which write once or in one transaction, return a result
-- instead. Unique and foreign keys are checked where the code relies on them. Strings that the code only
-- compares (identifiers, hashes, etags, names) are numbers, 0 being the empty string; int64 sizes are
-- integers whose sum wraps at 2^63.
--
-- Parameters: SHA-1 (`hash_key`), the floating-point latency average (`blend`), whether a MinIO
-- client can be built (`client_ok`), object removal (`remove_ok`), which statements of a reap succeed
-- (`ReapCalls`), what other transactions commit in between (`between`), the order in which Postgres
-- returns rows that no ORDER BY orders, where it matters (`row_order`), HMAC, base32, bcrypt and token
-- signatures (`Crypto`), the MinIO client (`Minio`), renderers (`Tools`), and the ports of the services.
-- The binary search of the standard library has as much fuel as the table has entries, of which each
-- round uses one and drops half; the recursive query of the folder tree runs for a number of rounds, of
-- which each goes one level down; every other loop is structural.
--
-- Not modelled: HTTP handlers, the tickers, metrics, logs and traces; rendering thumbnails, and what
-- MinIO does with objects; registration and mail; the publishing of events; search
-- and the frontend.
pub mod Base
pub mod Database
pub mod Storage
pub mod Upload
pub mod Gc
pub mod Org
pub mod Sharing
pub mod Folder
pub mod Auth
pub mod File
pub mod System
pub mod Processing
pub mod Events
