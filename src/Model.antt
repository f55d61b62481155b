-- ===== src/Model.antt =====
-- The records that the services pass around and store (internal/model).
pub mod Scalars
pub mod Json
pub mod Message
pub mod Acknowledgement
pub mod DeadLetter
pub mod Agent
pub mod Subscription
pub mod Tenant
pub mod Billing
pub mod Audit
