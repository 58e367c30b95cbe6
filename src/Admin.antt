-- ===== src/Admin.antt =====
-- backend/src/app/admin_support: the lookup, the diagnostics and the remediation of the support staff.
pub mod Contracts
pub mod Lookup
pub mod Diagnostics
pub mod Ensure
