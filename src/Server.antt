-- ===== src/Server.antt =====
-- server.go: the HTTP server.
pub mod Http
pub mod Query
pub mod Auth
pub mod Build
pub mod Events
pub mod Lists
pub mod Requests
pub mod Routes
pub mod Token
pub mod Walk
pub mod Writer
mod Tests
mod AuthTests
