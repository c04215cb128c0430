-- ===== src/Reserve.antt =====
-- A reserve: the pool of one token. `Types` holds its data, `Liquidity` and `Collateral` its two
-- halves, `Fees` and `Interest` what it earns, `Borrow` what a loan takes and pays back, `Farms` the
-- farms it names, `Queries` the methods that read the whole and `Operations` those that change it.
pub mod Types
pub mod Liquidity
pub mod Collateral
pub mod Queries
pub mod Fees
pub mod Borrow
pub mod Interest
pub mod Farms
pub mod Operations
