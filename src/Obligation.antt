-- ===== src/Obligation.antt =====
-- What a user has deposited as collateral and owes, klend/programs/klend/src/state/obligation.rs.
pub mod Types
pub mod Queries
pub mod Slots
pub mod Ownership
pub mod Limits
pub mod Debt
pub mod Orders
pub mod Rollover
