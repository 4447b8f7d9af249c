-- ===== src/Ws.antt =====
-- src/routes/ws/: one WebSocket subscriber.
pub mod Filter
pub mod Queue
pub mod Session
pub mod Upgrade
