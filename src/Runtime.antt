-- ===== src/Runtime.antt =====
-- backend/src/app/runtime: fetching batches of updates, processing them, and the loops round that.
pub mod Offsets
pub mod Bridge
pub mod Polling
pub mod RawPolling
pub mod Loop
