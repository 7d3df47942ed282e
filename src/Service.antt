-- ===== src/Service.antt =====
-- The backend's business logic (internal/service), over the interfaces that it is given.
pub mod Errors
pub mod Token
pub mod Password
pub mod Interfaces
pub mod Account
pub mod New
pub mod Picture
pub mod Handle
pub mod TcpServer
pub mod Sample
mod Tests
