-- ===== src/Tests.antt =====
-- The theorems at concrete inputs, one module for each part of the program.
pub mod Samples
mod Numbers
mod Curves
mod Caps
mod Pools
mod Interest
mod Liquidations
mod Queue
mod Refreshes
mod Transfers
mod Lending
mod Obligations
mod Markets
