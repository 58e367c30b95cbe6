-- ===== src/Handlers.antt =====
-- The UC-01 and UC-02 handlers, the access resend handler, and the stores they use.
pub mod Ports
pub mod Memory
pub mod Bootstrap
pub mod Status
pub mod Resend
