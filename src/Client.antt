-- ===== src/Client.antt =====
-- The HTTP client of the root package.
pub mod Retry
pub mod Http
pub mod Config
pub mod Requests
mod Tests
mod RequestTests
