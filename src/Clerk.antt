-- ===== src/Clerk.antt =====
-- handlers/ileapclerk: the authentication handler over the Clerk API.
pub mod Tokens
pub mod Keys
pub mod Validation
pub mod Api
pub mod Handler
mod Tests
mod ApiTests
