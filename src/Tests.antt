-- ===== src/Tests.antt =====
-- The theorems at concrete data, and runs of the model on it.
mod Data
mod Approvals
mod Requests
mod Schedules
mod Generation
mod Retries
mod Deletions
mod Clients
