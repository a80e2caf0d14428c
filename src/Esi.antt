-- ===== src/Esi.antt =====
-- esi/esi.c: the program that runs a script against the coordinator and the planner.
pub mod Operation
pub mod Script
pub mod Completion
pub mod Arrival
pub mod Tests
