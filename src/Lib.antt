-- ===== src/Lib.antt =====
-- A model of the backend of StellarYield: the service under backend/src that indexes the events of
-- the vault contracts into PostgreSQL and answers the HTTP API. The contracts themselves
-- (soroban-contracts/, in Rust) and the web client are not modelled.
--
-- The parts, and the files that model them:
--   Base      numbers, tests, options, results and the SQL statements over tables as lists of rows.
--   Amounts   backend/src/utils/fixedPoint.ts (Amounts/FixedPoint) and backend/src/utils/amounts.ts
--             (Amounts/Decimal): base units as decimal text and back. Texts are lists of code
--             units (Amounts/Text); the digits of a number are written on fuel, one more than the
--             number, which is enough because a number has at most that many digits.
--   Rpc       backend/src/services/rpcLimiter.ts: the semaphore round every RPC call
--             (Rpc/Limiter), and the states that interleaved calls reach (Rpc/Limiter/Reach). Also
--             backend/src/services/rpcHealth.ts and the failover of rpcClient.ts (Rpc/Endpoints),
--             where the probe and the call are arguments.
--   Indexer   backend/src/services/indexer.ts with the parts of backend/src/services/yield.ts that
--             it calls. Indexer/Store holds the tables and the notices sent; Indexer/Positions the
--             deposit and withdraw handlers; Indexer/Epochs the distribution of yield, the claims
--             and the closing of an epoch; Indexer/Redemptions the early redemption requests;
--             Indexer/Lifecycle the states of a vault, with upsertVault of
--             backend/src/services/vault.ts; Indexer/Cursor the cursor, its backfill and its
--             retries, whose loops run on fuel: as many rounds as there are ledgers to go, or
--             retries, plus one, which is enough since each round advances;
--             Indexer/Access the operators and the roles of a vault; Indexer/Transfers the
--             transfers of shares with the alerts on large ones, and the transfer fees; Indexer/Status
--             the status and the manager of a vault with their history;
--             Indexer/Settings its fee rate, minimum deposit and other settings, its
--             whitelist and its redemption queue.
--   Auth      backend/src/api/middleware/auth.ts: the CIDR test (Auth/Cidr), the tables and lookups
--             of API keys (Auth/Keys), the requests (Auth/Guard/Requests), requireApiKey for keys
--             and sessions, and optionalApiKey (Auth/Guard).
--   Vaults    backend/src/services/vault.ts, the vault list: the filter trees, their check and their
--             SQL text (Vaults/Filter), the sort parameter (Vaults/Sorting) and the statements of
--             listVaults with their numbered parameters (Vaults/Listing). What a SQL text asks of a
--             row is said by conditions of which it is the text (Vaults/Filter/Reading,
--             Vaults/Listing/Clauses); how the database compares values is an argument.
--   Webhooks  backend/src/services/webhookWorker.ts, webhookThrottle.ts, webhookSignature.ts and the
--             retries of notifications.ts, with the reset and the rotation of
--             backend/src/api/controllers/admin.ts: the tables (Webhooks/Store), the headers
--             (Webhooks/Signature, Webhooks/Rotation), the delivery of a job (Webhooks/Worker) and
--             the retries (Webhooks/Retries). Webhooks/Circuit and Webhooks/Throttle say what
--             sequences of them do. What a request gives, the HMAC and the SSRF checks are
--             arguments; the hourly counters do not expire, since their keys outlive their hour.
--   Yields    backend/src/services/yield.ts, getUserPendingYield: what a holder is promised of the
--             epochs that are not claimed (Yields/Pending). Its cache is not modelled.
--
-- How the code corresponds to the model. A handler is a function from the tables to the tables; a
-- camelCase name of the source is the snake_case name here. An SQL statement is one function on a
-- table: find for SELECT, update_where for UPDATE, upsert for INSERT … ON CONFLICT DO UPDATE and
-- insert_new for DO NOTHING. NOW() is an argument. A bigint and a NUMERIC column are a signed
-- integer; an address, a contract id or a hash that is only compared is a number. A notification or
-- a broadcast is appended to the list of notices; the exceptions that the handlers catch round it
-- are not modelled, since they change no table. The code that the middleware takes from elsewhere,
-- SHA-256, the JWT library and JavaScript's Number, is an argument of the functions that use it,
-- without hypotheses. So is the rounding of JavaScript's numbers in the redemption handlers; the
-- theorem on the fee assumes that it is exact up to 2 ^ 53, as it is in the language.
--
-- Not modelled: the decoding of contract events from XDR and their dispatch to the handlers, the
-- histories of the factory, the other queries of the vault and yield services, the user service,
-- the dispatch of notifications, the job queue, HTTP routing and serialisation, logging and
-- metrics, and the database driver.
pub mod Base
pub mod Amounts
pub mod Rpc
pub mod Indexer
pub mod Auth
pub mod Vaults
pub mod Webhooks
pub mod Yields
