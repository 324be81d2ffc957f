-- ===== src/Lib.antt =====
-- A banking transaction system of TypeScript services: accounts, transfers by a saga, a double-entry
-- ledger, fraud detection and notifications, connected by HTTP and, through a transactional outbox,
-- by Kafka.
--
-- The parts and the files:
--   Effect: calls of PostgreSQL, MongoDB, Kafka and of other services, as explicit state passing
--     over a script that gives each call's fate: delivered, lost, or done with its reply lost. A
--     transaction shows its writes at COMMIT. Effect/Keeps, Effect/Runs, Effect/Throws, Effect/Once,
--     Effect/Lives and Effect/Answers hold the rules for invariants of runs, for what runs achieve,
--     for runs that throw, that write once, whose calls are all delivered, and that return a value.
--   Types, Money, Events (shared/types/src/index.ts and events.ts): the enums, records and events;
--     `moneyRegex` and the amounts in cents; `createDeterministicUuid` and `createLedgerEntryId`.
--   Outbox, Outbox/Publisher (shared/types/src/outbox.ts): `enqueueOutboxEvent`,
--     `createOutboxPublisher`.
--   AccountService (services/account-service/src/routes.ts): the table `accounts` with the SQL
--     statements; Routes, Reads and Create have the routes, Router a sequence of requests; Closed
--     has what every route keeps, Bank an abstract bank, whose state is the balances.
--   TransferService (services/transfer-service/src/saga.ts and routes.ts): `TransferSaga`, whose
--     HTTP calls run the routes of AccountService on that service's own database.
--   LedgerService (services/ledger-service/src/consumer.ts and index.ts): `processLedgerEvent` and
--     the queries.
--   FraudService (services/fraud-service/src/rules.ts, consumer.ts and index.ts) and
--     NotificationService (services/notification-service/src/consumer.ts and adapters.ts): the
--     consumers, whose HTTP calls run the routes of AccountService, and the queries.
--   Gateway (services/api-gateway/src/middleware/idempotency.js and proxy.js): POST /v1/transfers
--     with its idempotency cache, in front of TransferService; Gateway/Access (middleware/auth.js):
--     `authMiddleware` in front of GET /accounts/:id of AccountService.
--   WebPortal (services/web-portal/src/app/auth/session.ts): the session in memory and in storage;
--     Client and Auth (lib/api/client.ts and auth.ts): `requestJson`, and signing in and out; Routing
--     (app/routing): the table of routes, the guards and the menu; Forms (lib/forms/schemas.ts).
--   Tests: data, runs of the saga under chosen scripts, and the theorems at that data.
--
-- A UUID is the number that it stands for, an amount is in cents, a time in milliseconds. Values
-- that are drawn (random UUIDs and times) are arguments. SHA-1 is a parameter, and so are zod's
-- reading of an id's text, the decoding and the check of an access token, and the gateway behind
-- `fetch`. Calls that the code starts together run in their order. The loops are structural;
-- `decimal` takes the number plus one as fuel, which exceeds the count of its digits. NUMERIC(18, 2)
-- is the bound `numeric_limit` on what a row can hold. The ids that are drawn for the rows of an
-- outbox are taken to be new, so that its primary key is not checked; the keys of accounts and
-- transfers are. The lengths of the VARCHAR columns are not modelled. The JavaScript
-- numbers of the fraud rules and of the ledger's statistics, which round, are a parameter without
-- laws; what PostgreSQL and MongoDB add up is exact.
--
-- Not modelled: the rest of the API gateway (its own routes under /v1/auth, rate limits, CORS), the
-- web portal's pages and its clients per service, logging, metrics and start-up, the clients of the
-- third-party libraries, the infrastructure.
pub mod Base
pub mod Effect
pub mod Money
pub mod Types
pub mod Outbox
pub mod AccountService
pub mod TransferService
pub mod Events
pub mod LedgerService
pub mod FraudService
pub mod Gateway
pub mod NotificationService
pub mod WebPortal
pub mod Tests
