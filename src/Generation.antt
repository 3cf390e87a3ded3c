-- ===== src/Generation.antt =====
-- `ActionProposalService.generate_from_brief` from the composed candidates on. The composition of
-- candidates from a brief's signals (proposal_composition.py) is an argument, and so are the ids of
-- new rows and the row that wins a race on the unique origin.
pub mod Candidate
pub mod Walk
pub mod Respect
pub mod Holding
pub mod Validity
