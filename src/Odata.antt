-- ===== src/Odata.antt =====
-- internal/odata/parse.go: from an OData `$filter` text to a list of filters.
pub mod Quote
pub mod Split
pub mod Lexer
pub mod Parser
pub mod Parse
pub mod Clause
pub mod RoundTrip
pub mod Sound
mod Tests
