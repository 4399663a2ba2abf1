-- ===== src/Api.antt =====
-- internal/api: the rate limiter, the replies, and the checks before the handlers.
pub mod Limiter
pub mod Reply
pub mod Header
pub mod Handlers
pub mod Await
pub mod Search
pub mod Server
