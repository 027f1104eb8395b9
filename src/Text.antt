-- ===== src/Text.antt =====
-- The parts of Go's `strings`, `strconv` and `fmt` that the program uses, over byte strings.
pub mod Search
pub mod Decimal
pub mod Split
pub mod FilePath
pub mod Fields
pub mod CommaList
