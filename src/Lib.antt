-- ===== src/Lib.antt =====
-- A model of the backend of RawDB, a server that collects raw photographs (backend/src), and its laws.
--
-- The files of a sample set and its `rawdb-meta.toml` are objects of an S3 service, which is the only
-- durable state. Each instance keeps a cache of it in SQLite. Contributors upload into `pending/`,
-- and reviewers move uploads to `samples/`; the scanner reconciles the cache with both prefixes and
-- with the users file; the sync ticks tell the other instances that a domain has changed.
--
-- The parts:
--   Base       texts (lists of code points), lists, association lists, results: what the parts share
--   Error      backend/src/error.rs: AppError and its status codes
--   Action     a handler: it changes the shared state and answers a value or an AppError
--   S3         backend/src/s3.rs: the requests to the service (a parameter) and its documented behaviour: a
--              DeleteObjects request can answer with errors for single keys, and a copy is sure to read its
--              source only if the key has no `%` and no `+`, which url_encode_key does not escape;
--              S3.Download: download_to_file, over the answers of the service
--   Memory     an S3 service in memory, on which the tests run; Memory.Streams: one whose streams break
--   Meta       backend/src/meta.rs: SetMeta, FileMeta, validate, parse; Meta.Quote: to_toml
--   Upload     backend/src/routes/upload.rs: the checks of paths; Upload.Begin: begin; Upload.Parts: the
--              sizes of multipart plans; Upload.Complete: complete; Upload.Receive: stream,
--              multipart_complete and multipart_abort
--   RateLimit  backend/src/ratelimit.rs: check and sweep; RateLimit.Tokens: the tokens, told from the decisions
--   Auth       backend/src/auth.rs: the session cookie, roles, AuthGuard; Auth.ApiKey: backend/src/apikey.rs
--   Cache      backend/src/cache/db.rs: the tables and the statements that change them
--   State      backend/src/state.rs: what an instance holds
--   SyncTick   backend/src/sync_tick.rs: bump, prime_cells, poll_once; SyncTick.Watch: run_passes and
--              the rounds of the watcher
--   Scanner    backend/src/cache/scanner.rs: the reading of one entry; Scanner.Pass: the workers, the
--              passes and the refreshes; Scanner.Once: run_once
--   Users      backend/src/users.rs: cas_update; Users.Admin: the handlers of backend/src/routes/admin.rs
--              and backend/src/routes/me.rs that use it
--   Admin      backend/src/routes/admin.rs: reject_pending and delete_set, over delete_prefix of
--              backend/src/s3.rs; Admin.Selection and Admin.Approve: approve_pending; Admin.Remove:
--              delete_set_file; Admin.Edit and Admin.EditSet: edit_pending and edit_set; Admin.Objects: the
--              steps on objects that they share; Admin.Merged, Admin.Carried and Admin.Before: what the
--              metas that approvals and edits write have to be
--   Download   backend/src/routes/public.rs: download and serve_download, with client_ip; and
--              download_pending of backend/src/routes/admin.rs
--   Verify     backend/src/routes/admin.rs: verify_pending
--   Responses  backend/src/cache/responses.rs: get_or_build, if_none_match, respond, with the stamps of
--              backend/src/cache/db.rs; Responses.Race: requests and writes that interleave
--
-- Numbers are natural numbers. Where the source wraps or casts, the model does: `dq.len() as u32` in the
-- rate limiter, the generations of the cache. Times are numbers of nanoseconds or opaque numbers.
-- The loop of cas_update and those that resume a stream run on their five retries; the other loops run over
-- lists. No other fuel is used.
-- What other instances do to the store is explicit: cas_update takes a function for the requests of each
-- round, a worker of the scanner takes the three states at which its reads are answered, and the cache of
-- responses has a relation of steps. The handlers of Admin run alone; the copies of an approval, which the
-- program issues at once, run in the order of the meta.
--
-- Not modelled: the libraries (TOML, UTF-8 decoding, JWT, hashes, chrono), which are arguments;
-- logs, metrics and Kubernetes events; failures of SQLite and of the local disk; the search and export
-- queries; the lists, the search and the feeds, the login flow, the inspection of files, the configuration and
-- the startup.
pub mod Base
pub mod Memory
pub mod Download
pub mod Error
pub mod Action
pub mod S3
pub mod Meta
pub mod Upload
pub mod RateLimit
pub mod Auth
pub mod Cache
pub mod State
pub mod SyncTick
pub mod Scanner
pub mod Users
pub mod Admin
pub mod Verify
pub mod Responses
