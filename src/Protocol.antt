-- ===== src/Protocol.antt =====
-- The TCP protocol of the gateway and the backend (internal/protocol).
pub mod Messages
pub mod Frame
