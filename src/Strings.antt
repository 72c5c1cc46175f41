-- ===== src/Strings.antt =====
-- src/lib/strings.c and src/lib/strings.h. A string is the list of its bytes before the terminator.
pub mod Digits
pub mod Decimal
pub mod Hex
pub mod Format
pub mod Room
pub mod Bounds
pub mod Compare
pub mod Printing
mod Tests
