-- ===== src/Lib.antt =====
-- Verification of the backup gateway: a server that takes backup uploads over HTTP and S3, buffers
-- them, sends them to a storage backend, verifies what arrived and deletes old backups.
--
-- The parts and their files:
--   Config    internal/config: the types, the entry of a key (`ResolveKeyConfig`), `Validate`,
--             `applyDefaults`. A map is the list of its entries in the order of an iteration.
--   Api       internal/api: Keys, Handler and KeyLock are handler.go, Http is http.go, S3 is the
--             routing and `putObject` of s3.go, Aws the signatures of aws_request.go and
--             s3.go, and Multipart the sessions of s3_multipart.go, whose buffers are handles.
--   Auth      internal/auth: the chain and its providers. The digests of Go's crypto packages,
--             `os.Getenv` and the run of an external program are parameters.
--   Text      internal/auth/external.go: `indexOf` and `replaceAll`, also used for strings.Index.
--   Buffer    internal/buffer: `MemoryBuffer`, `FileBuffer`, `SlidingBuffer` and `Manager` with its
--             account of memory. Each method is one step, also `MemoryBuffer.Read`, which its lock
--             does not make one; an os.File is a parameter.
--   Reader    internal/reader: `AssembledReader`, an upload of several parts.
--   Storage   internal/storage: Backend is the interface of backend.go, with its documented behaviour
--             as laws, Sftp is sftp_backend.go, Rsync is rsync_uploader.go and rsync_backend.go, and
--             Shell the quoting of the remote command. The packages ssh, sftp and rsync are records
--             of their calls, with what they document as laws.
--   Rotation  internal/rotation: which backups are deleted, and the deletions.
--   Server    internal/server: Router is router.go, Listeners is server.go.
--   Main      cmd/backupgate/main.go: the storage and the authentication chains of a configuration.
--   Pipeline  internal/pipeline: `Process` in each buffer mode. `Env` gathers its surroundings: the
--             backend, the body's reader, digests, the clock, and functions of path and time.
--   Io, Sort, Prelude: the results of readers, `sort.Slice` with its contract, and shared lemmas.
--
-- The pipeline asks `Config` for the entry of the key, reads the body from a buffer, calls the
-- backend and ends with the rotation; the handlers ask `authChain` before. Each step takes the state
-- and returns a result or an error with the new state, so that early returns are values. The calls of
-- a handler that matter beside its answer, of locks, buffers and the pipeline, are a list of
-- events. `KeyLock` has the calls of any number of requests at the same time, in any order.
--
-- The results on verified uploads hold for every backend that keeps `IsBackend`. Over SFTP, whose
-- downloads cannot be read, no upload with verification succeeds, as its own result says.
--
-- Strings are lists of bytes, an int64 is an integer with its wrap-around written out, and a run-time
-- panic is a result (`Call`). Loops that Go bounds by their data are structural. `resolveExpression`
-- and `replaceAll` take fuel; the results say how much is enough, and the one caller of `replaceAll`
-- gives one more than the length of the text. The copy of an upload over SFTP takes fuel for its
-- rounds, as its reader is a parameter; one round more than the reader has to give is enough.
--
-- Not modelled: sockets, TLS, the functions of Go's crypto packages, XML, YAML and JSON, files of the
-- operating system, the log and the identifiers of requests, flags and signals, which are calls of
-- libraries; the choice of an SSH authentication method in ssh.go; the reading of the configuration and
-- of the files of credentials; and hasher.go of the pipeline, which nothing uses.
pub mod Api
pub mod Auth
pub mod Buffer
pub mod Config
pub mod Io
pub mod Main
pub mod Pipeline
pub mod Prelude
pub mod Reader
pub mod Rotation
pub mod Server
pub mod Sort
pub mod Storage
pub mod Text
