-- ===== src/Lib.antt =====
-- A model of Rein, a reverse proxy in front of the APIs of LLM providers that gives out virtual keys
-- with budgets, rate limits and caps. Requests come in at `ServeHTTP` (internal/proxy/proxy.go), which
-- asks a freeze flag, a key store, a spend meter, a rate limiter and a concurrency cap in this order,
-- then forwards to an adapter; the adapter meters the response, streamed or not, through the price
-- table, and so feeds the meter that the next request is checked against. Keys are made, changed and
-- revoked through the admin API, and are kept in memory or encrypted in SQLite.
--
-- Files, by the code they are about:
--   Rates            internal/rates: the sliding window limiter (`Allow` is `allow`, its body under
--                    the key's mutex `allow_key`); Rates/History has the rule on a full history.
--   Concurrency      internal/concurrency: `Acquire`, `Release` and `InFlight` as `acquire`, `release`
--                    and `in_flight`; Concurrency/Safety has the interleavings of their atomic steps.
--   Meter            internal/meter: meter.go (`check`, `record_cost`), with the period keys in
--                    Meter/Period, a ledger to compare with in Meter/Ledger, pricing.go in
--                    Meter/Pricing, and loader.go, holder.go and poll.go in Meter/Loader.
--   MeterDb          internal/meter/sqlite.go: the same interface over the table `spend`.
--   Keys             internal/keys: keys.go as a heap of keys under two maps of pointers, and
--                    sweeper.go in Keys/Sweep; Keys/Calls has the calls as data.
--   KeysDb           internal/keys/sqlite.go: the table and its statements in KeysDb/Statements, the
--                    operations, the migrations in KeysDb/Schema, and the two stores under the same
--                    calls in KeysDb/Together.
--   Cipher           internal/keys/cipher.go: the two ciphers and the envelope of a sealed text.
--   Rotate           internal/keys/rotate.go, and cmd/rein-rotate-keys in Rotate/Command.
--   BaseUrl          internal/keys/baseurl.go: `ValidateUpstreamBaseURL` as `validate`.
--   Admin            internal/admin and internal/api, the switch of internal/killswitch, and the
--                    identifiers of internal/keys/keys.go: the checks of a body in Admin/Checks and the
--                    handlers in Admin/Handlers, over an interface `KeyStore` that Admin/InMemory fills.
--   Config           internal/config: `Load`.
--   Server           cmd/rein/main.go: the choice of the stores and their opening, the readiness
--                    probe and the counter of connections.
--   Proxy            internal/proxy/proxy.go and errcodes.go: `serve_http` is `ServeHTTP` up to the
--                    call of the adapter and `finish` its deferred release.
--   Stream           internal/proxy/stream.go: the parsers and `consume`, `Read` and `Close` in
--                    Stream/Reader, whole runs of reads in Stream/Delivery, and the number
--                    in the trailer in Stream/Digits.
--   Inject           internal/proxy/openai.go: `injectStreamUsage`.
--   Adapter          internal/proxy/openai.go, anthropic.go and unknown_model_logger.go: how a
--                    response that is no stream is billed, over a meter whose `Record` may fail, in
--                    Adapter/Bills both adapters over one in-process meter, in Adapter/Forward the targets and headers
--                    of the outgoing request, and in Adapter/Failed timeout.go and the error handlers.
--   Sql, Rfc3339     database/sql and time.RFC3339Nano as the code uses them.
--   Base, Samples    shared names and lemmas; values that the tests share.
--
-- Numbers are natural numbers, or integers where the source may have negative ones; they do not wrap,
-- since the quantities here (counts, nanoseconds, tokens) stay far below 2^63; the largest, the product
-- in `estimateCount`, is a count of admitted requests times at most the window, 6·10^10 nanoseconds, and
-- so below 2^63 for up to 1.5·10^8 requests a minute, or 9·10^9 a second. Instants are
-- nanoseconds since 1970, given to each call as what its clock says; earlier ones are not represented.
-- float64 is the interface Base/Float. Texts are lists of bytes, of ASCII where the code lowers or
-- trims them. A Go map is an association list; where the code walks one, its order is that of the
-- list. Recursion on fuel is in `consume_lines`, whose fuel is the number of buffered bytes, each line
-- taking at least one, and in `decimal`, whose fuel is the number itself, no smaller than the number of
-- its digits. JSON codecs, file reads, response bodies and clocks are parameters, and so are AES-GCM,
-- base64, crypto/rand, net/url, the resolver and time.Parse, with the laws that the proofs use as
-- fields of `Aead`, `Base64` and `Rfc3339`; Cipher/Toy and Rfc3339/Unary have values of them.
--
-- A call of the database that fails is an input: `Faults` says which calls of one operation fail. A
-- transaction that fails changes nothing, a commit that fails included. A statement is one step; of the
-- operations with several, `update` and `rotate_encryption` take what other connections write
-- between.
--
-- Not modelled: `main` and the shutdown of the server, the wiring of net/http, the ticker loops,
-- the decoding of the embedded price table, closing of handles, log lines and the messages of errors.
pub mod Base
pub mod Rates
pub mod Concurrency
pub mod Meter
pub mod Keys
pub mod Proxy
pub mod Stream
pub mod Inject
pub mod Adapter
pub mod Samples
pub mod Cipher
pub mod Sql
pub mod KeysDb
pub mod Rotate
pub mod Rfc3339
pub mod MeterDb
pub mod BaseUrl
pub mod Config
pub mod Server
pub mod Admin
