-- ===== src/Proposals.antt =====
-- `action_proposal_service.py`: the life of an action proposal.
mod Session
mod Operations
mod Execution
pub mod Invariant
pub mod Rows
pub mod Keeps
pub mod Authority
pub mod Approval
pub mod Withdrawal
pub mod Diagram
unfoldable pub use Session.*
unfoldable pub use Operations.*
unfoldable pub use Execution.*
