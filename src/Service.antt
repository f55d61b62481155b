-- ===== src/Service.antt =====
-- internal/service: the services behind the handlers.
pub mod Agents
pub mod Billing
pub mod Idempotency
pub mod Messages
pub mod Subscriptions
pub mod Tokens
