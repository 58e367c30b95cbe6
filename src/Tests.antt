-- ===== src/Tests.antt =====
-- The theorems applied at concrete inputs, and runs of the definitions.
mod Setup
mod Issuance
mod Persistence
mod Handlers
mod Resend
mod Runtime
mod Transport
mod Billing
mod Reference
mod Fulfillment
mod Bot
mod Admin
