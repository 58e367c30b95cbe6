-- ===== src/Issuance.antt =====
-- backend/src/app/issuance: the service that grants, re-delivers and revokes access.
pub mod Contracts
pub mod Memory
pub mod Issue
pub mod Resend
pub mod Revoke
pub mod Service
pub mod Audit
pub mod Gate
pub mod Ledger
pub mod Lifetime
