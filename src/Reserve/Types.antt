-- ===== src/Reserve/Types.antt =====
-- The data of a reserve (klend/programs/klend/src/state/reserve.rs). Amounts of tokens are `u64`s,
-- names that end in `_sf` are the bits of fractions, `_bsf` those of a `BigFraction`. A `Pubkey` is a
-- number, since keys are only compared. Padding is left out. Of `TokenInfo`, the settings of the
-- price oracles, the ages, the divergence and the use of the price stay.
use solana_auditor_skill.Prelude.{ℕ, List}
use solana_auditor_skill.LastUpdate.{LastUpdate}
use solana_auditor_skill.RateCurve.{BorrowRateCurve}
use solana_auditor_skill.WithdrawalCaps.{WithdrawalCaps}

abbrev pub Pubkey : Type 0
Pubkey = ℕ

pub record ReserveLiquidity : Type 0 where
  pub mint_pubkey : Pubkey
  pub supply_vault : Pubkey
  pub fee_vault : Pubkey
  pub total_available_amount : ℕ
  pub borrowed_amount_sf : ℕ
  pub market_price_sf : ℕ
  pub market_price_last_updated_ts : ℕ
  pub mint_decimals : ℕ
  pub deposit_limit_crossed_timestamp : ℕ
  pub borrow_limit_crossed_timestamp : ℕ
  pub cumulative_borrow_rate_bsf : ℕ
  pub accumulated_protocol_fees_sf : ℕ
  pub accumulated_referrer_fees_sf : ℕ
  pub pending_referrer_fees_sf : ℕ
  pub absolute_referral_rate_sf : ℕ
  pub token_program : Pubkey
  pub rewards_amount_available : ℕ

pub record WithdrawQueue : Type 0 where
  pub queued_collateral_amount : ℕ
  pub next_issued_ticket_sequence_number : ℕ
  pub next_withdrawable_ticket_sequence_number : ℕ

pub record ReserveCollateral : Type 0 where
  pub mint_pubkey : Pubkey
  pub mint_total_supply : ℕ
  pub supply_vault : Pubkey

pub record CollateralExchangeRate : Type 0 where
  pub collateral_supply : ℕ
  pub liquidity : ℕ

pub record ReserveFees : Type 0 where
  pub origination_fee_sf : ℕ
  pub flash_loan_fee_sf : ℕ

pub record TokenInfo : Type 0 where
  pub name : List ℕ
  pub max_twap_divergence_bps : ℕ
  pub max_age_price_seconds : ℕ
  pub max_age_twap_seconds : ℕ
  pub block_price_usage : ℕ

pub record ReserveConfig : Type 0 where
  pub status : ℕ
  pub host_fixed_interest_rate_bps : ℕ
  pub min_deleveraging_bonus_bps : ℕ
  pub block_ctoken_usage : ℕ
  pub early_repay_remaining_interest_pct : ℕ
  pub emergency_mode : ℕ
  pub protocol_order_execution_fee_pct : ℕ
  pub protocol_take_rate_pct : ℕ
  pub protocol_liquidation_fee_pct : ℕ
  pub loan_to_value_pct : ℕ
  pub liquidation_threshold_pct : ℕ
  pub min_liquidation_bonus_bps : ℕ
  pub max_liquidation_bonus_bps : ℕ
  pub bad_debt_liquidation_bonus_bps : ℕ
  pub deleveraging_margin_call_period_secs : ℕ
  pub deleveraging_threshold_decrease_bps_per_day : ℕ
  pub fees : ReserveFees
  pub borrow_rate_curve : BorrowRateCurve
  pub borrow_factor_pct : ℕ
  pub deposit_limit : ℕ
  pub borrow_limit : ℕ
  pub token_info : TokenInfo
  pub deposit_withdrawal_cap : WithdrawalCaps
  pub debt_withdrawal_cap : WithdrawalCaps
  pub elevation_groups : List ℕ
  pub disable_usage_as_coll_outside_emode : ℕ
  pub utilization_limit_block_borrowing_above_pct : ℕ
  pub autodeleverage_enabled : ℕ
  pub proposer_authority_locked : ℕ
  pub borrow_limit_outside_elevation_group : ℕ
  pub borrow_limit_against_this_collateral_in_elevation_group : List ℕ
  pub deleveraging_bonus_increase_bps_per_day : ℕ
  pub debt_maturity_timestamp : ℕ
  pub debt_term_seconds : ℕ
  pub rewards_amount_per_slot : ℕ
  pub permissioned_ops : ℕ

pub record Reserve : Type 0 where
  pub version : ℕ
  pub last_update : LastUpdate
  pub lending_market : Pubkey
  pub farm_collateral : Pubkey
  pub farm_debt : Pubkey
  pub liquidity : ReserveLiquidity
  pub collateral : ReserveCollateral
  pub config : ReserveConfig
  pub borrowed_amount_outside_elevation_group : ℕ
  pub borrowed_amounts_against_this_reserve_in_elevation_groups : List ℕ
  pub withdraw_queue : WithdrawQueue

pub record ReferrerTokenState : Type 0 where
  pub referrer : Pubkey
  pub mint : Pubkey
  pub amount_unclaimed_sf : ℕ
  pub amount_cumulative_sf : ℕ
  pub bump : ℕ

pub record DepositLiquidityResult : Type 0 where
  pub liquidity_amount : ℕ
  pub collateral_amount : ℕ

pub record CalculateBorrowResult : Type 0 where
  pub borrow_amount_f : ℕ
  pub receive_amount : ℕ
  pub origination_fee : ℕ
  pub referrer_fee : ℕ

pub record CalculateRepayResult : Type 0 where
  pub settle_amount : ℕ
  pub repay_amount : ℕ

pub data BorrowSize : Type 0 where
  exact : ℕ → BorrowSize
  all_available : BorrowSize
  at_most : ℕ → BorrowSize

pub data FeeCalculation : Type 0 where
  exclusive inclusive : FeeCalculation
