-- ===== src/Persistence.antt =====
-- backend/src/app/persistence
pub mod IssuanceState
