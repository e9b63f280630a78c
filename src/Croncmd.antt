-- ===== src/Croncmd.antt =====
-- examples/croncmd: commands submitted on cron schedules.
pub mod Time
pub mod Bits
pub mod Text
pub mod Spec
pub mod Schedule
pub mod Steady
pub mod Program
pub mod Scheduler
pub mod Catalog
pub mod Node
pub mod Utc
