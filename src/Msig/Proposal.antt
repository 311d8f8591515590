-- ===== src/Msig/Proposal.antt =====
-- What a ProposalState account promises: an abstract proposal, its encoding, and its votes.
pub mod Abstract
pub mod Refinement
pub mod Votes
pub mod Approvals
pub mod Membership
