-- ===== src/Keyboard.antt =====
-- src/kernel/keyboard.c: from scan codes to the inputs that its listeners get.
pub mod Layout
pub mod Scan
pub mod Modifiers
pub mod Typeable
pub mod Untypeable
pub mod Typing
pub mod Command
pub mod Work
pub mod Matched
pub mod Delivery
mod Tests
