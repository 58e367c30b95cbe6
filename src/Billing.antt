-- ===== src/Billing.antt =====
-- Paid events: their ledger (UC-04), their effect on subscriptions (UC-05), and the signed ingress.
pub mod Facts
pub mod Tables
pub mod Reference
pub mod Ingest
pub mod Apply
pub mod Fulfillment
pub mod Memory
pub mod Steps
