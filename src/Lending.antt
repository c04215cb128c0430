-- ===== src/Lending.antt =====
-- The operations of the market on reserves and obligations,
-- klend/programs/klend/src/lending_market/lending_operations.rs.
pub mod Checks
pub mod Values
pub mod Groups
pub mod Collateral
pub mod Debt
pub mod Reserves
pub mod Refresh
pub mod Balances
