-- ===== src/Console.antt =====
-- The console of console.c: the ring buffer between the interrupt routines and the readers, and the
-- CGA text screen.
pub mod Input
pub mod Queue
pub mod Keyboard
pub mod Keys
pub mod Readline
pub mod Screen
pub mod Rows
