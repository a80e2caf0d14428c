-- ===== src/Coordinator.antt =====
-- coordinador/: the coordinator, which hands the operations of the ESIs to the instances.
pub mod State
pub mod KeyTable
pub mod InstanceList
pub mod Distribution
pub mod Requests
pub mod EsiConnection
pub mod SchedulerConnection
pub mod Semaphores
pub mod InstanceConnection
pub mod Dispatch
pub mod Load
pub mod Availability
pub mod Exclusion
pub mod Rotation
pub mod Tests
