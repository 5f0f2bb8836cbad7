-- ===== src/Snapshots.antt =====
-- Snapshots of virtual machines and their schedules, in console/app/snapshots.
pub mod Names
pub mod Summaries
pub mod Creation
pub mod Schedules
pub mod Status
pub mod Run
