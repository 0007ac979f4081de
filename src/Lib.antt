-- ===== src/Lib.antt =====
-- A model of RaiFlow, a payment runtime for the Nano network, with the theorems that make its
-- durable state correct.
--
-- RaiFlow watches accounts for confirmed blocks. A block that pays an invoice becomes a deposit, a
-- payment and events, all in one transaction of the storage package; webhooks hear of the events
-- through an outbox that a worker drains. Money leaves by sends and refunds, whose signed blocks are
-- kept before they are broadcast, by one process at a time for each account: the holder of a lease.
--
-- The modules, and the code that each is about:
--   Prelude         names passed on, Boolean tests, lists, JavaScript's `Map` (Dict)
--   Model           packages/model/src: statuses, resources, events, errors, results
--   Storage.Db      the tables of packages/storage/src/index.ts, `appendEvent` and
--                   `enqueueWebhookOutbox`
--   Storage.Ingest  `createSqliteConfirmedDepositIngestStore`, the transaction on a confirmed block
--   Storage.Refunds `createSqliteRefundStore` and `createSqliteSendStore`
--   Leases          `createSqliteAccountOperationLeaseStore` and
--                   `createInMemoryAccountOperationLeaseStore`
--   Outbox          `createSqliteWebhookOutboxStore` and `WebhookOutboxWorker.deliver`
--   Intents         the stores of signed blocks, in SQLite and in memory
--   Idempotency     `createSqliteIdempotencyReplayStore` and `createIdempotencyReplayStore`
--   Invoices        `createSqliteInvoiceStore`, `Runtime.cancelInvoice`, `Runtime.runExpiryCheck`
--   Subscriptions   `SubscriptionManager`
--   EventLog        `list` of `createSqliteEventStore` and `Runtime.listEvents`
--   Semaphore       the `Semaphore` of packages/rpc/src/index.ts
--   Recovery        `AccountHistoryRecovery.reconcile`
--   Allocation      `createSqliteInvoiceAccountStore`
--   Accounts        `createSqliteAccountStore`, `Runtime.createManagedAccount`,
--                   `createWatchedAccount`, `updateAccount` and `deleteAccount`
--   Orchestrators   `SendOrchestrator` and `ReceiveOrchestrator`: World has their state, their calls
--                   and the order of these, Sends a send under its lease, Ticks the loops over sends,
--                   Tasks and TaskStores the two stores of receive tasks, Receives a receive task
--                   under its lease and the loop over them; Hoare, Failing
--                   and Ledger carry the reasoning
--   Transfers       `Runtime.queueSend` and `Runtime.queueRefund`
--   Webhooks        `createSqliteWebhookStore`, `Runtime.createWebhookEndpoint` and
--                   `deleteWebhookEndpoint`
--
-- A table is a list of rows in the order of insertion; an INSERT checks the unique columns that the
-- migrations declare, and that of an intent its reference too, an UPDATE is a map over the rows.
-- SQLite itself is not modelled: a transaction is one function from a state to a result, and one
-- that throws leaves the state as it was. Where SQL leaves the order of equal keys open, rows stay
-- in the order of the table. Amounts are decimal texts that the source reads as BigInt: here they
-- are natural numbers. Times are ISO texts of one format, which compare as their instants do: here
-- they are natural numbers too. Ids are never empty texts. Random ids, the clock, the size of the
-- database files and the derivation of addresses are parameters of the functions that use them. The
-- loop of `confirmPublishedSend` runs on fuel for 61 rounds: 60 sleeps of 2 seconds in its 120
-- seconds, and a last look at the clock; every other loop is over a list.
--
-- Not modelled: the network, timers, HTTP, the SDK, configuration, the dashboard, the migrations, and
-- the parts of the runtime that call the stores beyond cancelling and expiring invoices, listing
-- events, changing accounts and webhook endpoints, and queueing sends and refunds. One orchestrator
-- is a sequence of rounds, since a round returns at once while another is on; the orchestrators of
-- other processes enter through their calls on the intents, before each answer from outside.
pub mod Prelude
pub mod Model
pub mod Storage
pub mod Leases
pub mod Outbox
pub mod Intents
pub mod Idempotency
pub mod Invoices
pub mod Subscriptions
pub mod Semaphore
pub mod EventLog
pub mod Recovery
pub mod Accounts
pub mod Orchestrators
pub mod Transfers
pub mod Webhooks
pub mod Allocation
