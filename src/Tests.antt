-- ===== src/Tests.antt =====
-- The theorems at inputs that exercise the code, over services in memory.
mod Fixtures
mod Engine
mod Messages
mod Migrations
mod Handlers
mod Batch
mod Limits
mod Tokens
mod Config
mod Billing
mod Audit
mod Gateway
mod WebSocket
mod Sdk
mod Agents
mod DeadLetters
mod ExactlyOnce
