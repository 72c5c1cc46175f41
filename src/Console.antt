-- ===== src/Console.antt =====
-- The virtual terminals of src/kernel/console.c: their buffers, the line that is edited, the screen
-- and the keys.
pub mod Term
pub mod Loops
pub mod Line
pub mod Cells
pub mod Insert
pub mod Cut
pub mod Words
pub mod Screen
pub mod Print
pub mod Keys
pub mod Handler
pub mod Deletes
pub mod Moves
pub mod Refine
pub mod Typing
pub mod Readline
pub mod Status
pub mod StatusBar
pub mod Tests
