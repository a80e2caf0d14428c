-- ===== src/System.antt =====
-- The processes with one another.
pub mod Dialogue
pub mod Locking
pub mod Operations
pub mod Writes
pub mod Tests
