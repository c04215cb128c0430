-- ===== src/Tests/Samples.antt =====
-- The inputs of the tests.
use solana_auditor_skill.Prelude.{◌*◌, ◌/◌, [], ◌∷◌, replicate, false}
use solana_auditor_skill.Prelude.Int.{pos}
use solana_auditor_skill.Numerics.{one}
use solana_auditor_skill.LastUpdate.{LastUpdate, all_checks}
use solana_auditor_skill.LastUpdate
use solana_auditor_skill.RateCurve.{BorrowRateCurve, point}
use solana_auditor_skill.WithdrawalCaps.{WithdrawalCaps}
use solana_auditor_skill.Obligation.Types.{Obligation, init, new_collateral, new_liquidity}
use solana_auditor_skill.Market.{LendingMarket, ElevationGroup}
use solana_auditor_skill.Reserve.Types.{Reserve, ReserveLiquidity, ReserveConfig}

-- 1% to 10% up to 80% of utilization, 80% at full utilization.
abbrev pub steep : BorrowRateCurve
steep = record { points = point 0 100 ∷ point 8_000 1_000 ∷ replicate 9 (point 10_000 8_000) }

-- 1000 tokens per hour, of which 300 have left.
abbrev pub hourly : WithdrawalCaps
hourly = record {
  config_capacity = pos 1_000;
  current_total = pos 300;
  last_interval_start_timestamp = 5_000;
  config_interval_length_seconds = 3_600;
}

abbrev pub settings : ReserveConfig
settings = record {
  status = 0;
  host_fixed_interest_rate_bps = 50;
  min_deleveraging_bonus_bps = 100;
  block_ctoken_usage = 0;
  early_repay_remaining_interest_pct = 0;
  emergency_mode = 0;
  protocol_order_execution_fee_pct = 0;
  protocol_take_rate_pct = 15;
  protocol_liquidation_fee_pct = 10;
  loan_to_value_pct = 70;
  liquidation_threshold_pct = 75;
  min_liquidation_bonus_bps = 200;
  max_liquidation_bonus_bps = 500;
  bad_debt_liquidation_bonus_bps = 99;
  deleveraging_margin_call_period_secs = 259_200;
  deleveraging_threshold_decrease_bps_per_day = 24;
  fees = record { origination_fee_sf = one / 1_000; flash_loan_fee_sf = one / 2_000 };
  borrow_rate_curve = steep;
  borrow_factor_pct = 100;
  deposit_limit = 10_000_000;
  borrow_limit = 8_000_000;
  token_info = record {
    name = [];
    max_twap_divergence_bps = 500;
    max_age_price_seconds = 120;
    max_age_twap_seconds = 240;
    block_price_usage = 0;
  };
  deposit_withdrawal_cap = hourly;
  debt_withdrawal_cap = hourly;
  elevation_groups = replicate 20 0;
  disable_usage_as_coll_outside_emode = 0;
  utilization_limit_block_borrowing_above_pct = 90;
  autodeleverage_enabled = 0;
  proposer_authority_locked = 0;
  borrow_limit_outside_elevation_group = 8_000_000;
  borrow_limit_against_this_collateral_in_elevation_group = replicate 32 0;
  deleveraging_bonus_increase_bps_per_day = 10;
  debt_maturity_timestamp = 0;
  debt_term_seconds = 0;
  rewards_amount_per_slot = 3;
  permissioned_ops = 0;
}

-- 1 000 000 tokens at hand and 500 000 lent out, of which fees claim 10; 1 200 000 shares, 1 000 queued.
abbrev pub pool_liquidity : ReserveLiquidity
pool_liquidity = record {
  mint_pubkey = 1;
  supply_vault = 2;
  fee_vault = 3;
  total_available_amount = 1_000_000;
  borrowed_amount_sf = 500_000 * one;
  market_price_sf = 2 * one;
  market_price_last_updated_ts = 1_700_000_000;
  mint_decimals = 6;
  deposit_limit_crossed_timestamp = 0;
  borrow_limit_crossed_timestamp = 0;
  cumulative_borrow_rate_bsf = one;
  accumulated_protocol_fees_sf = 7 * one;
  accumulated_referrer_fees_sf = 2 * one;
  pending_referrer_fees_sf = one;
  absolute_referral_rate_sf = 0;
  token_program = 4;
  rewards_amount_available = 9_000;
}

abbrev pub pool : Reserve
pool = record {
  version = 1;
  last_update = LastUpdate.new 4_000;
  lending_market = 9;
  farm_collateral = 0;
  farm_debt = 0;
  liquidity = pool_liquidity;
  collateral = record { mint_pubkey = 5; mint_total_supply = 1_200_000; supply_vault = 6 };
  config = settings;
  borrowed_amount_outside_elevation_group = 500_000;
  borrowed_amounts_against_this_reserve_in_elevation_groups = replicate 32 0;
  withdraw_queue = record {
    queued_collateral_amount = 1_000;
    next_issued_ticket_sequence_number = 1;
    next_withdrawable_ticket_sequence_number = 0;
  };
}

-- The pool, refreshed in slot 5 000 with all checks of its price.
abbrev pub refreshed : LastUpdate
refreshed = record { slot = 5_000; stale = false; price_status = all_checks }

abbrev pub fresh_pool : Reserve
fresh_pool = record pool { last_update = refreshed }

abbrev pub no_group : ElevationGroup
no_group = record {
  max_liquidation_bonus_bps = 0;
  id = 0;
  ltv_pct = 0;
  liquidation_threshold_pct = 0;
  allow_new_loans = 0;
  max_reserves_as_collateral = 255;
  debt_reserve = 0;
}

abbrev pub market : LendingMarket
market = record {
  version = 1;
  bump_seed = 254;
  lending_market_owner = 40;
  lending_market_owner_cached = 40;
  quote_currency = [];
  referral_fee_bps = 2_000;
  emergency_mode = 0;
  autodeleverage_enabled = 0;
  borrow_disabled = 0;
  price_refresh_trigger_to_max_age_pct = 50;
  liquidation_max_debt_close_factor_pct = 20;
  insolvency_risk_unhealthy_ltv_pct = 95;
  min_full_liquidation_value_threshold = 2;
  max_liquidatable_debt_market_value_at_once = 500_000;
  global_allowed_borrow_value = 45_000_000;
  emergency_council = 41;
  elevation_groups = replicate 32 no_group;
  min_net_value_in_obligation_sf = 0;
  min_value_skip_liquidation_ltv_checks = 0;
  name = [];
  min_value_skip_liquidation_bf_checks = 0;
  individual_autodeleverage_margin_call_period_secs = 0;
  min_initial_deposit_amount = 100_000;
  obligation_order_execution_enabled = 0;
  immutable = 0;
  obligation_order_creation_enabled = 0;
  price_triggered_liquidation_disabled = 0;
  mature_reserve_debt_liquidation_enabled = 0;
  obligation_borrow_debt_term_liquidation_enabled = 0;
  borrow_order_creation_enabled = 0;
  borrow_order_execution_enabled = 0;
  proposer_authority = 42;
  min_borrow_order_fill_value = 0;
  withdraw_ticket_issuance_enabled = 0;
  withdraw_ticket_redemption_enabled = 0;
  obligation_borrow_rollover_configuration_enabled = 0;
  obligation_borrow_migration_to_fixed_execution_enabled = 0;
  withdraw_ticket_cancellation_enabled = 0;
  reserve_rewards_max_apr_bps = 0;
  min_withdraw_queued_liquidity_value = 0;
  fixed_term_rollover_window_duration_seconds = 0;
  open_term_rollover_window_duration_seconds = 0;
  min_partial_rollover_value = 0;
  term_based_full_liquidation_duration_secs = 0;
  permissioning_authority = 0;
  permissioned_ops = 0;
}

-- 600 000 shares of reserve 77, worth 1.5, and a debt to reserve 88 of 250 000 tokens, worth 0.5.
abbrev pub backed : Obligation
backed =
    record (init 4_000 9 20
      (record (new_collateral 77) { deposited_amount = 600_000; market_value_sf = one * 3 / 2 }
        ∷ replicate 7 (new_collateral 0))
      (record (new_liquidity 88 one) {
        borrowed_amount_sf = 250_000 * one;
        market_value_sf = one / 2;
      }
        ∷ replicate 4 (new_liquidity 0 0))
      0 0) {
        last_update = refreshed;
        deposited_value_sf = one * 3 / 2;
        borrow_factor_adjusted_debt_value_sf = one / 2;
        borrowed_assets_market_value_sf = one / 2;
        allowed_borrow_value_sf = one;
        unhealthy_borrow_value_sf = one * 9 / 8;
        has_debt = 1;
      }
