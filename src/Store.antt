-- ===== src/Store.antt =====
-- The stores behind the service (internal/store).
pub mod Mysql
pub mod Redis
mod Tests
