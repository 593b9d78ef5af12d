-- ===== src/Lib.antt =====
-- The ct-mapreduce tools follow Certificate Transparency logs: ct-fetch downloads the entries of each
-- log, filters the certificates, and stores those that it has not seen before.
--
-- The parts, from the log to the store, and the files that model them:
--
-- * cmd/ct-fetch/ct-fetch.go. CtFetch/Bounds is `NewLogWorker`, which picks the stretch of a log.
--   CtFetch/Download is `Run`, `saveState` and `downloadCTRangeToChannel`: it requests entries from
--   the log, sends them to a channel and saves its position. CtFetch/Filter is `certIsFilteredOut` and
--   `uint64ToTimestamp`, and CtFetch/Worker is `insertCTWorker`, which takes the entries from the
--   channel, filters them and calls `Store`. CtFetch/Polling is `SyncLog` and the goroutine of `main`
--   that polls a log, CtFetch/Health the handler of "/health" with the clock that the workers note, and
--   CtFetch/Main the list of logs and how `main` ends. CtFetch/Pipeline is the goroutines between them
--   as a step relation: the downloads that send to the channel, the workers that
--   `StartDatabaseThreads` starts, `Stop`, and the two waits of `main`. A download is there the list of
--   what it sends, which Polling gives, and a worker handles one entry after another, as Worker says.
--   CtFetch/Polling/Stored is the database of storage as the one that a polled log is kept in.
-- * storage/filesystemdatabase.go is Storage/Database: `Store` asks the known certificates of the
--   expiration date and issuer whether the serial is new, and only then accumulates the issuer's
--   metadata and hands the certificate to the backend. Its child Callers is `GetIssuerMetadata` as
--   several goroutines call it, a step for each lock.
-- * storage/knowncertificates.go and storage/issuermetadata.go are Storage/KnownCertificates and
--   Storage/IssuerMetadata; both keep their sets in a remote cache. Storage/KnownCertificates/Calls is
--   the calls of `WasUnknown` by several goroutines: one command of the cache stands for one moment, so
--   that an interleaving is a sequence of calls and of second halves of calls.
-- * storage/types.go. The interface `RemoteCache` is Cache, with the laws that its clients rely on in
--   Cache/Laws; `StorageBackend` and storage/noopbackend.go are Storage/Backend; `ExpDate`, `Serial`
--   and the identifiers are the files of Storage with these names.
-- * storage/mockcache.go is MockCache and storage/rediscache.go is RedisCache, two implementations of
--   `RemoteCache` that fill those laws, the second over the commands of a Redis client.
--   RedisCache/LastHour is the second below the known certificates, where an expiration has passed.
-- * storage/mockbackend.go is MockBackend and storage/localdiskbackend.go is LocalDisk, two
--   implementations of `StorageBackend`, the second over the calls of a file system.
-- * coordinator/coordinator.go is Coordinator: processes elect a leader by `TrySet` of the cache.
-- * config/config.go is Config, engine/engine.go is Engine, which picks the cache, the backend and the
--   sink of the metrics, and Telemetry is telemetry/telemetry.go: the names of the metrics, and in
--   Telemetry/Dump the texts that are written of them.
-- * cmd/storage-statistics/storage-statistics.go is Statistics, the totals of what the cache holds, the
--   certificates that it prints and the states of the logs, and cmd/ct-getcert/ct-getcert.go is GetCert.
-- * GoLib is what the code uses of Go's standard library: sort.Search, maps, times, the two date
--   layouts, text, paths, hex and Base64. Certificate holds the fields that the code reads of a
--   certificate.
--
-- A Go method is the function of its name in snake_case. It takes its receiver's state and returns
-- the new one; an error is an option beside the result, as in Go, or a Result where Go's result is of
-- no use with it. Where the code ends the process or panics, the model returns a value that says so.
-- What is behind a pointer in a map is written back to the map.
--
-- No function of the model needs fuel for its result but the search of sort.Search, whose fuel is the
-- length of the list, and the two searches of the calendar, for a year of 400 and a month of 12. The
-- loops that wait for others, the download and the polls of `AwaitStart`, run on the list of what
-- comes from outside: the log's answers, what each round of the `select` receives, and the steps of
-- the other processes between two polls. When a list ends, the outcome says that the loop waits.
-- Indices of a log are uint64, with the wrap-around written out; times are nanoseconds on ℕ.
--
-- Parameters stand for what is not in the repository: the Redis client and the file system with their
-- documented behaviour as laws, the cache and the backend behind their interfaces, the parsing of
-- certificates and of log leaves, SHA-256, JSON, PEM, ASN.1, URLs, the file of the configuration, the
-- eviction of the ARC cache, the texts of numbers in the metrics, and glob patterns.
--
-- The channel of ct-fetch holds 16384 entries, as in the source. Its steps need no fuel: a run is a
-- sequence of them, and each makes the pipeline's work smaller.
--
-- Not modelled: the displays; the cancellation of a context; metrics and logging; the usage text; and
-- the interleaving of whole calls of `Store` in one database, or of several logs that are polled over
-- one, so that the polling of one log is modelled over a database of its own and an entry is handled in
-- one step.
pub mod Prelude
pub mod GoLib
pub mod Cache
pub mod MockCache
pub mod RedisCache
pub mod Certificate
pub mod CtFetch
pub mod Coordinator
pub mod Storage
pub mod MockBackend
pub mod LocalDisk
pub mod Config
pub mod Engine
pub mod Telemetry
pub mod Statistics
pub mod GetCert
pub mod Tests
