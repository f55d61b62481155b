-- ===== src/Sdk.antt =====
-- sdk/go/agentmsg: the Go client.
pub mod Http
pub mod Messages
pub mod Client
pub mod Served
pub mod WebSocket
