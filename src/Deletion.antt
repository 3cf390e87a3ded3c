-- ===== src/Deletion.antt =====
-- Durable deletion: deletion_ops.py, deletion_planner.py, retention.py,
-- account_deletion.py and deletion.py.
pub mod Operation
pub mod Tables
pub mod Planner
pub mod Rows
pub mod Signals
pub mod Evidence
pub mod Histories
pub mod Cleanup
pub mod Batches
pub mod Retention
pub mod Account
pub mod Plans
pub mod Lifecycle
pub mod Worker
pub mod Consistent
pub mod Sessions
pub mod Confirmation
pub mod Recovery
pub mod Erased
pub mod Slots
pub mod Retained
pub mod Previewed
pub mod Tombstones
pub mod Scrubbed
pub mod Erasure
pub mod Departure
pub mod Steps
pub mod Requests
pub mod Upkeep
pub mod Removal
pub mod OneStroke
pub mod Refinement
pub mod Resume
