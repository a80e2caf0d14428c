-- ===== src/Planner.antt =====
-- planificador/planificador.c and planificador.h: the scheduler of the ESI processes.
pub mod State
pub mod Queues
pub mod Keys
pub mod Death
pub mod Schedule
pub mod Block
pub mod Console
pub mod Loop
pub mod Round
pub mod Inv
pub mod Release
pub mod Burial
pub mod Locks
pub mod DeathInv
pub mod Choice
pub mod Policies
pub mod Ratio
pub mod Kills
pub mod Wakes
pub mod Arrivals
pub mod Preemption
pub mod Stops
pub mod Deadlock
pub mod Circles
pub mod Reports
pub mod Settles
pub mod Termination
pub mod Tests
