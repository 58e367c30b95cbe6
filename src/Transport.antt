-- ===== src/Transport.antt =====
-- The guards that stand before the handlers: update dedup, command rate limits, resend cooldown.
pub mod Dedup
pub mod RateLimit
pub mod Cooldown
