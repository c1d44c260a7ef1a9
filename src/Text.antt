-- ===== src/Text.antt =====
-- What the code uses of Go's packages `strings`, `strconv` and `net` (JoinHostPort), over byte texts.
-- Space and letter case are those of ASCII.
pub mod Trim
pub mod Search
pub mod Number
pub mod Split
pub mod Fields
pub mod Address
pub mod Quote
mod Tests
