-- ===== src/Api.antt =====
-- internal/api: the HTTP handlers.
pub mod Responses
pub mod Messages
pub mod Agents
pub mod Batch
pub mod Binding
pub mod Subscriptions
pub mod Gateway
