-- ===== src/Engine.antt =====
-- internal/engine: the message engine, its dead letter queue, and duplicate detection.
pub mod Channels
pub mod DeadLetter
pub mod ExactlyOnce
pub mod IdempotencyTracker
pub mod Lifecycle
pub mod Submission
pub mod Worker
