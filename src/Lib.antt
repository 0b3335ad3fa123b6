-- ===== src/Lib.antt =====
-- A model of mockgatehub, a mock of the GateHub API, and what is proved of it.
--
-- The program is an HTTP server. A handler (internal/handler) checks a request, reads and writes the
-- storage (internal/storage), may hand a webhook to a queue (internal/webhook), and answers a value
-- or an error with a status. The model keeps this shape: a storage method is a function from the
-- storage to a result and the new storage, a handler the same over the handler's state, and what was
-- written before an early return stays written. Routing, JSON and logging are left out; a request
-- is the decoded value.
--
-- - Prelude: shared names; Result.antt has results and the monad of handlers, GoMap.antt Go's maps as
--   association lists, Heap.antt the objects behind pointers, Int.antt the integers.
-- - Float64.antt: float64 as an interface with the laws that the proofs use, which hold of every
--   value, NaN and the infinities included. Float64/Units.antt is an instance for examples, numbers
--   with four decimals.
-- - Models.antt, Models/: the structs of internal/models/models.go and internal/models/cards.go.
-- - Consts.antt: internal/consts/consts.go. Consts/Vaults.antt compares its two vault tables.
-- - Storage/Balances/Ledger.antt: what the balance methods promise, a ledger, which they implement.
-- - Storage.antt, Storage/: MemoryStorage of internal/storage/memory.go, a file for each group of
--   methods. Users, customers and accounts are objects on a heap, because handlers write through the
--   pointers that they fetch. Every method is one atomic step, as the mutex makes it.
--   Storage/CardStore.antt is the part of the storage that the card lifecycle uses, as an interface
--   with laws that MemoryStorage meets.
-- - Fees.antt: FeeConfig and CalculateFee of internal/handler/fees.go; Handler/Fees.antt its requests.
-- - Handler/State.antt: the state of Handler (internal/handler/handler.go), the errors of
--   internal/handler/apierror.go, and SendAsync and the callback URL of internal/webhook/manager.go,
--   up to the queue, which is a list of the jobs handed over.
-- - Handler/Cards.antt: the card lifecycle of internal/handler/cards.go.
-- - Handler/Pages.antt: the pages of card transactions, internal/handler/cards.go, on 64-bit integers.
-- - Handler/Payments.antt: deposits and withdrawals of the iframe, internal/handler/handler.go.
-- - Handler/Transfers.antt: CreateTransaction of internal/handler/core.go. The goroutine that completes
--   a transaction is a value, which one more step runs, at once where no webhook is configured.
-- - Handler/Withdrawals.antt: the settlement of withdrawals, internal/handler/withdrawals_admin.go.
-- - Handler/Users.antt: the managed users of internal/handler/auth.go.
-- - Webhook/Job.antt, Webhook/Queue.antt, Webhook/Worker.antt: the jobs of internal/webhook/job.go, the
--   queue of internal/webhook/queue.go and the worker of internal/webhook/worker.go. The Redis client
--   is an interface: what it documents is that it hands out only messages that were added. JSON and
--   the printing of numbers are an interface too. A goroutine that waits for its timer is an entry of
--   a list; a step relation lets reads, reclaims, callers and timers, which may be cancelled,
--   interleave.
-- - Auth/Signature.antt, Auth/Middleware.antt: the signatures of requests, internal/auth. HMAC-SHA256 is
--   a function that the definitions take.
-- - Handler/Kyc.antt: the verification of users, internal/handler/identity.go, with the form's fields in
--   Handler/Forms.antt and the callback that verifies a code in Handler/TwoFactor.antt. The HTTP client
--   is an argument. Handler/Kyc/Requests.antt has the one user that each request may write.
-- - Handler/CardOrders.antt: the first card of a user with its customer, its account and its limits.
-- - Handler/ThreeDs.antt: 3DS challenges, which are created, listed while they are pending, and confirmed
--   or declined.
-- - Handler/CardTokens.antt, Handler/CardPins.antt: the tokens of internal/handler/card_token.go and the
--   endpoints of PINs and sensitive data. Cryptography, base64 and JSON are an argument, the record
--   CardCrypto; what a theorem relies on of them is the record IsCoded.
-- - Handler/CardTransactions.antt: card transactions, made by a caller or from a scenario, their JSON and
--   their status, internal/handler/cardtx_admin.go. JSON is an argument, the record TransactionJson.
-- - Handler/Wallets.antt: the rest of internal/handler/core.go, wallets, balances and currencies.
-- - Handler/Organizations.antt: the configuration of an organization, internal/handler/auth.go;
--   Handler/Addresses.antt: the addresses of customers.
-- - Redis.antt, Redis/: RedisStorage of internal/storage/redis.go, a file for each group of methods. The
--   Redis client and JSON are interfaces: a successful write is what a later read finds, and what was
--   encoded decodes. The text that the server keeps for a sum is a function of the text before and of the
--   number. Nothing is assumed of a call that fails.
-- - Tests: the theorems at concrete inputs.
--
-- Generated identifiers, addresses and times are arguments. Recursion is on lists and texts, so no fuel is
-- used outside the number printer of Float64/Units.antt, whose thirty rounds print numbers of up to
-- thirty digits. A loop over a map takes the entries in their
-- order in the list, where Go's order is any. Where a request is refused by a text with %q, the quotation marks are left out.
--
-- SendAsync is modelled up to the queue without the delay that a caller adds. Not modelled: the scans of
-- the Redis key space, the sending of a webhook, the seeder, the catalogue of scenarios as it is loaded,
-- exchange rates, statements, the webhook sink, PDF and HTML output, configuration and logging.
pub mod Prelude
pub mod Float64
pub mod Models
pub mod Consts
pub mod Storage
pub mod Fees
pub mod Handler
pub mod Webhook
pub mod Redis
pub mod Auth
pub mod Tests
