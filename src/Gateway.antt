-- ===== src/Gateway.antt =====
-- internal/httpapi: the HTTP gateway in front of the TCP server.
pub mod Http
pub mod Client
pub mod Status
pub mod Responses
pub mod Handlers
pub mod Guard
mod Tests
