-- ===== src/Lib.antt =====
-- A model of Firecrawl Manager, a gateway that shares a pool of upstream API keys among clients, and
-- the theorems about it.
--
-- A request of a client is forwarded to the upstream with one of the keys of the client. The gateway
-- chooses the key round robin, keeps within the rate limit, the concurrency and the daily quota of
-- each key, and takes keys out of the pool for a while, or for good, when the upstream refuses them.
--
-- Which file models what (paths are from the repository's root):
-- Prelude: numbers, Boolean tests, lists, dicts and texts as Python has them.
-- Errors: app/errors.py, `FcamError`. Code that may raise returns a `Result` (`ok` or `err`).
-- Models: app/db/models.py, the columns that the modelled code reads or writes.
-- Concurrency: app/core/concurrency.py; `try_acquire`, `_release`, `Lease.release` and `current` are
--   functions on the dict of counters in memory. Concurrency/Redis has the leases in Redis: the two
--   scripts, `_acquire_fallback`, and how `try_acquire` and `_release` call them.
-- RateLimit: app/core/rate_limit.py; `take_token` is what `TokenBucketRateLimiter.allow` does with
--   one bucket, RateLimit/Redis is the bucket in Redis with its fallback.
-- KeyPool: app/core/key_pool.py; `visit` is one round of the loop of `KeyPool.select`, and
--   KeyPool/Select is the loop, the errors after it and the whole method.
-- CreditEstimator: app/core/credit_estimator.py.
-- Governance: app/api/deps.py, `require_client` and `enforce_client_governance`, which gives its lease
--   back when the request has ended (`leave`). The rate limiter may fail to answer, as the
--   one in Redis does.
-- Idempotency: app/core/idempotency.py; `begin` is `start_or_replay` up to its call of itself, which
--   `start_or_replay` makes with a bound on the depth of the calls.
-- ResourceBinding: app/core/resource_binding.py over the table with its unique constraint; calls have
--   the answers of the database in a `Session`.
-- Forwarder: app/core/forwarder.py, the changes to a key (`_mark_cooling`, `_record_failure` and so
--   on); Forwarder/Answer and Forwarder/Loop are `Forwarder.forward` without a pinned key. A try
--   calls `select`, then `allow`, then `try_acquire`, then the upstream, in this order.
--   Forwarder/Pinned is the loop with a pinned key and `forward` as a whole; Forwarder/Providers has the
--   providers' settings, urls and headers, Forwarder/KeyTest is `test_key`.
-- DataPlane: the routes of app/api/firecrawl_v2_compat.py, data_plane.py, firecrawl_compat.py and
--   exa_compat.py, which put Idempotency, Forwarder and ResourceBinding together; DataPlane/V2, V1 and
--   Exa have one function for each route.
-- ControlPlane: app/api/control_plane.py with app/core/batch_clients.py, the admin routes that change
--   keys and clients, on the tables (`Db`); ControlPlane/History has the histories of such requests.
--   ControlPlane/Logs is `query_logs`; ControlPlane/Logs/Pages follows its cursors.
-- Middleware: app/middleware.py, `RequestLimitsMiddleware.dispatch`, `_infer_api_endpoint` and
--   `_is_valid_request_id`.
-- Cooldown: app/core/cooldown.py, with the client of Redis as a record of functions and what Redis
--   documents of them as laws.
-- Credits: app/core/credit_refresh.py, when credits are fetched again and which snapshots are kept, and
--   app/core/credit_aggregator.py (Credits/Aggregate, Credits/Report). Credits/Fetch is
--   app/core/credit_fetcher.py in a session, Credits/Refresh a pass over the keys that are due, and
--   Credits/Manual the admin routes that fetch credits.
-- KeyImport: app/core/key_import.py, the lines of a text with keys; ControlPlane/Import
--   and ControlPlane/Import/Lines are `import_keys_text`, which puts them into the tables.
-- Migrate: app/tools/migrate_sqlite_to_postgres.py: the choice of the tables and the copying;
--   Migrate/Main has the verification and the run as a whole.
--
-- State is passed explicitly. Calls under a lock are atomic steps. The database, the clock, Redis,
-- decryption and the upstream are not part of the repository: their answers are arguments, one record
-- for each call (`Env` of KeyPool, `Try` of Forwarder, `Round` of RateLimit/Redis), with any values.
-- A commit either goes through or fails; after a failure the rows are those of
-- an arbitrary list in the record. Times are whole numbers of microseconds (database), milliseconds
-- (Redis) or nanoseconds (the monotonic clock), and the tokens of a bucket, floats in the source, are
-- whole numbers of the share of a token that the smallest step of time earns, so that the arithmetic
-- is exact. Names of keys and of endpoints are texts.
--
-- The loop of `forward` has the bound of the source, `max_selection_tries`, and the fallback its five
-- rounds, so no bound was added there. `start_or_replay` calls itself after it deleted a record that is
-- over; its depth is an argument. The other loops go over lists.
--
-- Not modelled: logging, metrics and the details of errors, since nothing reads them back; the
-- dispatch of HTTP requests, configuration and the web pages.
pub mod Concurrency
pub mod ControlPlane
pub mod Cooldown
pub mod CreditEstimator
pub mod Credits
pub mod DataPlane
pub mod Errors
pub mod Forwarder
pub mod Governance
pub mod Idempotency
pub mod KeyImport
pub mod KeyPool
pub mod Middleware
pub mod Migrate
pub mod Models
pub mod Prelude
pub mod RateLimit
pub mod ResourceBinding
