-- ===== src/Tests.antt =====
-- The theorems at concrete inputs, and runs of the model (the tests of beeper/src/dfa.rs and
-- beeper/src/http1/parser.rs cover the same ground on the code).
pub mod Samples
pub mod Patterns
pub mod Parsers
pub mod Names
pub mod Maps
pub mod Reports
pub mod Conformance
pub mod Messages
pub mod Closing
pub mod Objects
pub mod Loading
pub mod Http2Loading
