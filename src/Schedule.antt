-- ===== src/Schedule.antt =====
-- `scheduled_briefs.py`: the daily brief, from the local schedule to the worker that generates it.
pub mod Instant
pub mod Resolution
pub mod Run
pub mod Dispatch
pub mod Tick
pub mod Worker
pub mod Consistent
pub mod Upkeep
pub mod Histories
pub mod Briefs
pub mod Slots
pub mod Queued
pub mod Drain
