-- ===== src/Lib.antt =====
-- Kamino Lend: the core of the lending program klend/programs/klend, the program that this
-- repository audits.
--
-- A reserve (klend/programs/klend/src/state/reserve.rs) holds the liquidity of one token. Depositors
-- give liquidity and get collateral tokens, whose price is the supply per token; borrowers take
-- liquidity out and owe it with interest, at a rate that a curve makes of the utilization; the
-- protocol, the host and referrers take fees; caps bound what leaves in an interval of time; and a
-- queue of tickets has the first claim on what is available.
--
-- An obligation (state/obligation.rs) is the position of one owner: the collateral deposited from up to
-- eight reserves and the debts of up to five. An owner withdraws and borrows as far as the values of the
-- deposits, weighted by loan-to-value ratios, allow. A lending market (state/lending_market.rs) sets what
-- its reserves share: the elevation groups, with better ratios for some of the reserves, and the lowest
-- net value of an obligation.
--
-- The files (the paths are under klend/programs/klend/src):
--   Prelude      names of the libraries, lists, division with its two roundings, integers
--   Errors       the enum LendingError (lib.rs), a constructor for a variant, in snake case
--   Outcome      how a call ends: a value, a LendingError, or a panic
--   Numerics     the number crates `fixed` and `uint`: an interface (record Numerics, an instance
--                argument of what uses it) and what the crates document of it (IsDocumented, a
--                hypothesis of the theorems). Numerics/Exact gives a value of both, and the proof
--                that the documented behaviour leaves no other
--   Fraction     utils/fraction.rs; a Fraction is its bits, value * 2^60
--   RateCurve    utils/borrow_rate_curve.rs
--   WithdrawalCaps  lending_market/withdrawal_cap_operations.rs
--   LastUpdate   state/last_update.rs
--   Reserve      state/reserve.rs: Types (the structs), Liquidity, Collateral (and the exchange
--                rate), Queries (methods that read), Operations (methods that change), Fees, Borrow,
--                Interest (with rewards), Farms
--   Market       state/lending_market.rs: the state of a market and its elevation groups
--   Obligation   state/obligation.rs: Types, Queries, Slots (the deposits and borrows, with the lookups),
--                Ownership (the transfer to a new owner, with its handlers), Limits (what may be
--                withdrawn and borrowed), Debt (interest on a borrow), Orders
--                (state/obligation_order_operations.rs), Rollover (the modes of a rollover)
--   Lending      lending_market/lending_operations.rs, the operations on a reserve with an obligation:
--                Checks, Values, Groups, Collateral, Debt,
--                Reserves, Refresh (of the deposits of an obligation), Balances (the checks after
--                a transfer, lending_market/lending_checks.rs)
--   Liquidation  the amounts and bonuses of state/liquidation_operations.rs
--   Tickets      the withdraw queue, with the operations on tickets of
--                lending_market/lending_operations.rs: Covered (single operations), Order (the
--                outstanding tickets along a run, with the ticket that is skipped by
--                handlers/handler_withdraw_queued_liquidity.rs as a step)
--   Tests        the theorems at concrete inputs
--
-- A method that changes `self` returns the new value. The names are the source's, and `?`, `require!`
-- and `unwrap` are steps of a do block. The program is built with overflow checks (klend/Cargo.toml), so
-- arithmetic that leaves its word panics; a panic or an error ends the transaction, and the runtime
-- discards what was written, so neither carries a state.
--
-- The one loop on fuel is that of `pow_fraction`: a `u32` is halved at most 31 times before it is at
-- most one, and 32 rounds are given. The other loops are recursions on lists.
--
-- The slots of an obligation are lists; the source's arrays have a fixed length, which no operation
-- changes. The accounts that an instruction hands to an operation are a list of keys with their reserves.
-- An error of Anchor itself, as on an account that is missing, ends the call like a panic.
--
-- Not modelled: the reading of oracles, the handlers with their account checks and token transfers (but
-- those of the transfer of an obligation), the calls of the farms program, serialisation; and of the
-- operations on obligations the refresh of their borrows, the request of an elevation group, flash loans
-- and the steps of a liquidation, which stand on the methods modelled here. A `Pubkey` is a number.
-- Anchor compares two of its errors by their code, and so does the model.
pub mod Prelude
pub mod Errors
pub mod Outcome
pub mod Numerics
pub mod Fraction
pub mod RateCurve
pub mod WithdrawalCaps
pub mod LastUpdate
pub mod Reserve
pub mod Obligation
pub mod Market
pub mod Lending
pub mod Liquidation
pub mod Tickets
pub mod Tests
