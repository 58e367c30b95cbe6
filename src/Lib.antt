-- ===== src/Lib.antt =====
-- The backend of a Telegram bot that sells access (backend/src/app): how access is issued, shown
-- again and revoked, how a user is registered and told a status, how updates are received and
-- answered, how a payment becomes a subscription, and what the support staff may see and do.
--
-- A call that may raise is a function of its surroundings to a result and new surroundings
-- (`Exec`, Shared/Effects.antt): what was written before a raise stays written. A Python dictionary is
-- a function to `Option`, a set a function to `Bool`, an enum a data type, a dataclass a record.
-- Integers that may be negative are `ℤ` over the native naturals; times and seconds are naturals of
-- some unit. An `await` is a call: a component serves its calls one after the other.
--
-- Base.antt: tests, lists, dictionaries, keys with equality, decimal digits, blank texts, `strip`,
--   `lower` and the beginnings and ends of texts.
-- Shared.antt: backend/src/app/shared/types.py, shared/correlation.py, security/errors.py and the
--   identifier checks of security/validation.py.
-- Domain.antt: domain/status_view.py.
-- Issuance.antt: issuance/service.py with its contracts. Memory is the state of `IssuanceService`
--   and its small helpers; Issue, Resend and Revoke are `_execute_issue`, `_execute_resend` and
--   `_execute_revoke`, each cut at its awaits; Service is `execute`. The provider and the durable store
--   are parameters, with any answers and any raises. Audit, Gate, Ledger and Lifetime are proofs.
-- Persistence.antt: persistence/postgres_issuance_state.py over a list of rows. The connection fails
--   by a list of faults: a call is refused, or done with its reply lost. The length checks of the
--   schema are among the refusals. `now()` is a field of the database.
-- Durable.antt: the service over that repository, with a provider that does not touch the database.
--   Mirror and Restart are proofs.
-- Handlers.antt: application/handlers.py over the interfaces of application/interfaces.py (Ports), and
--   persistence/in_memory.py (Memory). SHA-256 is a parameter `hexdigest`, any function of texts. Resend
--   is the handler of application/telegram_access_resend.py over the parts that it is built with.
-- Runtime.antt: runtime/offsets.py, bridge.py, binding.py, polling.py, raw_polling.py, runner.py,
--   raw_runner.py and live_loop.py. The rendering of an update to an action (modelled in Bot), the
--   client and the outbound ledger are ports. A loop up to a stop flag runs on fuel, one unit for each test of the
--   flag: with a limit on the iterations one more than the limit is enough, and without one, one more
--   than the rounds before the flag goes up (Runtime/Loop/Ends.antt).
-- Transport.antt: application/telegram_update_dedup.py, telegram_command_rate_limit.py and the cooldown
--   of telegram_access_resend.py.
-- Billing.antt: Ingest is application/billing_ingestion.py with
--   postgres_billing_ingestion_atomic.py, Apply is postgres_billing_subscription_apply.py with
--   domain/uc05_apply_decision.py (Facts), Tables the Postgres tables that they, the snapshots and
--   the identities use. A transaction meets one fault of a list: it is refused, or committed with
--   its reply lost. Steps follows any calls of these one after another. Memory is
--   billing_events_ledger_in_memory.py and the handler over it. Reference is
--   security/checkout_reference.py, Fulfillment the handler of
--   runtime/payment_fulfillment_ingress.py over all of them. HMAC, base64, UTF-8, JSON, the text
--   form of times and what Python says of characters beyond ASCII are parameters (`Library`,
--   `Outside`). A time is a number of microseconds from the start of the year 1, on the clock of its
--   offset and in UTC.
-- Bot.antt: bot_transport. An update is a JSON value (Shared/Json.antt). Adapter is
--   telegram_adapter.py, Normalized normalized.py, Dispatcher dispatcher.py over a record of calls
--   (`Slice1Composition`), Codes and Presentation presentation.py, Outbound outbound.py, Catalog,
--   Storefront and Support the texts with message_catalog.py, storefront_config.py and
--   support_catalog.py, Runtime service.py, runtime_facade.py and runtime_wrapper.py. Delivery is the
--   outbound delivery ledger of persistence/in_memory.py, Composition the default composition of
--   application/bootstrap.py. The environment, `urllib.parse` (`UrlLib`), new correlation ids and the
--   text form of dates are parameters.
-- Admin.antt: admin_support. Lookup is adm01_lookup.py, Diagnostics adm02_diagnostics.py and Ensure
--   adm02_ensure_access.py, over ports that may raise; Contracts is what contracts.py gives all three.
-- Tests.antt: each theorem at a concrete input, and runs of the definitions.
--
-- Not modelled: the endpoints and adapters of admin support, the other Postgres repositories, HTTP,
-- configuration and process entry points; of the issuance repository its reconcile operations; of
-- the ingress the text of its notice; texts with lone surrogates, and times whose UTC lies outside the
-- years 1 to 9999; cancellation of a task, and calls of one process that interleave at an await.
pub mod Base
pub mod Shared
pub mod Domain
pub mod Issuance
pub mod Persistence
pub mod Durable
pub mod Handlers
pub mod Runtime
pub mod Transport
pub mod Billing
pub mod Bot
pub mod Admin
pub mod Tests
