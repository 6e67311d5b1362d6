-- ===== src/Conformance.antt =====
-- ileaptest/conformance.go: the conformance suite, less the tests of the footprints' extensions and of
-- fields that the demo handler does not read (TC001 to TC004 and PACT_TC04). The responses are
-- those that the tests decode: their status, and the values that JSON stands for; a body that
-- cannot be decoded fails its test, as any other body than the one that is wanted.
pub mod Checks
pub mod Suite
pub mod Demo
pub mod Refused
pub mod SignedIn
pub mod Listed
pub mod Single
pub mod Filtered
pub mod Links
pub mod Paged
pub mod Posted
pub mod Passed
mod Tests
