-- ===== src/Repository.antt =====
-- internal/repository: the statements of the program, over the tables of `Services`. `Statements`
-- has the calls of the driver that the repositories share.
pub mod Statements
pub mod Messages
pub mod Migrations
pub mod Pending
pub mod Keys
pub mod Acknowledgements
pub mod DeadLetters
pub mod Agents
pub mod Identities
pub mod Subscriptions
pub mod Billing
pub mod AuditLogs
