-- ===== src/Witnesses.antt =====
-- Runs of the theorems at concrete inputs.
mod Samples
mod Proposals
mod Accounts
mod Ledger
mod Encryption
mod Private
mod Executions
mod Proofs
mod Tokens
mod Pools
mod Liquidity
mod Zones
mod Members
