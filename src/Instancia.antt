-- ===== src/Instancia.antt =====
-- instancia: the process that stores the values of the keys.
pub mod State
pub mod EntryTable
pub mod Continuous
pub mod Algorithms
pub mod StatusTable
pub mod Steps
pub mod Replacing
pub mod Layout
pub mod Removal
pub mod Cells
pub mod Placing
pub mod Storage
pub mod Bytes
pub mod Requests
pub mod Writing
pub mod Compaction
pub mod Packed
pub mod Values
pub mod Statuses
pub mod Moving
pub mod Compacting
pub mod Compacted
pub mod Service
pub mod Answers
pub mod Storing
pub mod Dumping
pub mod Serving
pub mod ServiceTests
pub mod Tests
