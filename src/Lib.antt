-- ===== src/Lib.antt =====
-- btcpay-gate: a Bitcoin payment gateway on top of bitcoin-core, cmd/paygate and internal/.
--
-- A merchant asks the HTTP interface for an invoice; the gateway derives an address that a
-- watch-only wallet of bitcoin-core watches, polls the chain from a stored cursor, decides each
-- invoice's status from what it observes, and delivers every change of status from an outbox.
--
-- Parts, files and sources:
-- * Payments.State, internal/payments/state.go: statuses, invoices, observations, `Decide`, `Paid`
--   and `MinConfirmations`. Sorting has the order of `SortObservations`, Transitions the steps that an
--   invoice may take from one status to another; the other children hold proofs.
-- * Payments.Store, internal/payments/store.go. Tables: the schema and its SQL statements as
--   functions of the tables. Sql: the connection, statements and transactions. Ops: the methods of
--   `Store`. Runs and Reads: what an action does if the engine carries it out, and whatever the
--   engine does. Spec: what a call of `Apply` amounts to. The other children hold proofs.
-- * Rpc, internal/rpc/client.go (Client: the errors of `Call`, and `truncate`) and calls.go (Amounts, SinceBlock, the
--   error codes in Codes, and in Wallets what becomes of the answers). Calls: the client, what each
--   call posts, and the call as a whole. Errors has the chain of wrapped errors.
-- * Monitor, internal/monitor/monitor.go: `observation`, `poll` and `Poll`. Mapping turns the node's
--   answer into a batch for `Apply`; Run has the polls of `Run`, one after the other. `New` and its
--   options make a monitor with a reporter. Unloaded follows the node's answer to the health report;
--   the other children hold proofs, too.
-- * Health, internal/health/health.go: what polls leave behind, and the report on it.
-- * Webhook, internal/webhook/webhook.go: `Run`, `DeliverDue`, `post`, `backoff`, `Sign`, `Verify`. Rows
--   and Drain follow the events through posts and passes; Replay goes from the sender to a receiver.
-- * Wallet, internal/wallet/wallet.go: `Open`, `cover`, `ensureWatched`, `AddressAt`.
-- * Api, internal/api/api.go: `createInvoice`, `getInvoice`, `healthz`, `metrics`. Pages:
--   the texts of the latter two, `newID`, and the tables of routes.
-- * Command, cmd/paygate/main.go: `loadConfig` and how it reads the environment. Startup: `main` and
--   `run` up to the goroutines, `newSender` of sender.go, and `payments.Open`. Ending: what `run` does
--   once its wait is over, `shutdown`, and the exit status.
-- * Gateway, `run` of cmd/paygate/main.go: the goroutines of the monitor, the sender and the HTTP
--   server as one step relation on the database, and whole operations as paths of such steps. World
--   has database, wallet and node together, and Whole begins at the environment. Mirror, Lifecycle and
--   Lawful read the outbox as the life of each invoice, Keys reads its idempotency keys, Depth
--   compares thresholds with the counts that were reported, Told and Paid go from the node's answer to
--   the merchant's endpoint, and Sale from the request for an invoice.
-- * Base and Time: lists, integers, 64-bit words, decimal text, Go's instants and durations.
--
-- How the parts interact: Monitor.poll reads the cursor, maps the node's answer against the stored
-- invoices and ends in Store's `Apply`, whose events Webhook delivers from the same tables; its
-- outcome goes to Health, which Api reports. Api's creation asks Store for an index and the wallet
-- for an address: in Api any function that answers an address or an error, in Gateway.World the
-- wallet itself. Command.Startup makes the client of Rpc the node of the wallet.
--
-- Representation. An int64, and an int, is an integer, wrapped by `wrap64` where the source adds or
-- multiplies; SQL's own addition to the column `attempts` is not wrapped. An instant is a number of
-- nanoseconds since the Unix epoch, a duration too; an instant is not wrapped, which Go does to seconds
-- that lie within 62135596800 of the largest int64. A status column holds the status itself. Each
-- table is a list in the order of its rows, and ids of events are natural numbers. The state of a
-- component is a record, a method a function from state to result and state.
--
-- The database engine, modernc.org/sqlite, is not in the repository: a list of faults says which of
-- the coming statements it fails, and one that it does not fail does what its SQL says. A transaction
-- that fails puts the tables back; BeginTx and Commit are statements that may fail. The reference
-- from observations to invoices is not enforced: SQLite does that only where it is asked to, and the
-- source does not ask. One connection serves all goroutines, so a step of Gateway is a transaction,
-- or a statement outside one, and steps come in any order; the other files run one method at a time.
-- The node, the HTTP client, the encoders, the HMAC, the float arithmetic, the environment and the
-- sort of the library are parameters; Wallet.Watched names what the wallet relies on of its node,
-- Command.Core what of bitcoin-core makes the client of internal/rpc such a node, Webhook.Accepted when
-- an endpoint accepts, and Webhook.Replay what it relies on of the HMAC. Watched and Core speak of a
-- wallet whose only active receiving descriptor is the configured one, completed.
--
-- Fuel and bounds. Decimal text has at most 20 digits, which an int64 never exceeds. The loop of
-- `ensureWatched` runs on one round more than the index, which is enough for a positive step, since
-- each round adds at least one to a bound that is not negative. Gateway.Issued counts one index for
-- each task.
--
-- Not modelled: timers, the delivery of signals, and the log except in `shutdown`; the matching of a
-- request against a route, headers, and JSON, whose decoders are parameters of Rpc.Calls; and the
-- driver of the database.
pub mod Base
pub mod Time
pub mod Errors
pub mod Rpc
pub mod Payments
pub mod Health
pub mod Monitor
pub mod Webhook
pub mod Api
pub mod Wallet
pub mod Command
pub mod Gateway
