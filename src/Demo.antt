-- ===== src/Demo.antt =====
-- handlers/ileapdemo: the service handler over the embedded demo data.
pub mod Match
pub mod Handler
pub mod Auth
pub mod Provider
pub mod Disjunction
pub mod Compare
pub mod Pages
pub mod Tests
pub mod AuthTests
