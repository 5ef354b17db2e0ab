-- ===== src/Json.antt =====
-- src/json.hpp: the JSON value, its recursive-descent parser and its printer.
pub mod Value
pub mod Scan
pub mod Parser
pub mod Dump
pub mod Strings
pub mod Unicode
pub mod Literals
pub mod Numbers
pub mod Blank
pub mod Valid
pub mod Gather
pub mod Rendered
pub mod Layout
pub mod Rounds
pub mod Scalars
pub mod RoundTrip
pub mod Bounds
pub mod Sound
pub mod Access
pub mod Tests
