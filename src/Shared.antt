-- ===== src/Shared.antt =====
-- backend/src/app/shared and backend/src/app/security/errors.py, and the exceptions and effects that
-- all components share.
mod Types
mod Errors
mod Effects
unfoldable pub use Types.*
unfoldable pub use Errors.*
pub use Effects.*
pub mod Correlation
pub mod Validation
pub mod Json
