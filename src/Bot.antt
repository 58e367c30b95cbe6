-- ===== src/Bot.antt =====
-- backend/src/app/bot_transport: from a Telegram update to the action that answers it.
pub mod Codes
pub mod Presentation
pub mod Normalized
pub mod Dispatcher
pub mod Outbound
pub mod Catalog
pub mod Storefront
pub mod Support
pub mod Adapter
pub mod Delivery
pub mod Runtime
pub mod Composition
