-- ===== src/Errors.antt =====
-- `LendingError`, the errors of the program (klend/programs/klend/src/lib.rs), in the order of the
-- source.
pub data LendingError : Type 0 where
  invalid_market_authority invalid_market_owner invalid_account_owner invalid_amount : LendingError
  invalid_config invalid_signer invalid_account_input math_overflow insufficient_liquidity :
      LendingError
  reserve_stale withdraw_too_small withdraw_too_large borrow_too_small : LendingError
  borrow_too_large repay_too_small liquidation_too_small obligation_healthy : LendingError
  obligation_stale obligation_reserve_limit invalid_obligation_owner : LendingError
  obligation_deposits_empty obligation_borrows_empty obligation_deposits_zero : LendingError
  obligation_borrows_zero invalid_obligation_collateral invalid_obligation_liquidity : LendingError
  obligation_collateral_empty obligation_liquidity_empty negative_interest_rate : LendingError
  invalid_oracle_config insufficient_protocol_fees_to_redeem flash_borrow_cpi : LendingError
  no_flash_repay_found invalid_flash_repay flash_repay_cpi multiple_flash_borrows : LendingError
  flash_loans_disabled switchboard_v2_error could_not_deserialize_scope : LendingError
  price_too_old price_too_divergent_from_twap invalid_twap_price global_emergency_mode :
      LendingError
  invalid_flag price_not_valid price_is_bigger_than_heuristic price_is_lower_than_heuristic :
      LendingError
  price_is_zero price_confidence_too_wide integer_overflow no_farm_for_reserve : LendingError
  incorrect_instruction_in_position no_price_found invalid_twap_config : LendingError
  invalid_pyth_price_account invalid_switchboard_account invalid_scope_price_account : LendingError
  obligation_collateral_ltv_zero invalid_obligation_seeds_value : LendingError
  deprecated_invalid_obligation_id invalid_borrow_rate_curve_point invalid_utilization_rate :
      LendingError
  cannot_socialize_obligation_with_collateral obligation_empty withdrawal_cap_reached : LendingError
  last_timestamp_greater_than_current liquidation_reward_too_small : LendingError
  isolated_asset_tier_violation inconsistent_elevation_group invalid_elevation_group : LendingError
  invalid_elevation_group_config unhealthy_elevation_group_ltv : LendingError
  elevation_group_new_loans_disabled reserve_deprecated referrer_account_not_initialized :
      LendingError
  referrer_account_mint_missmatch referrer_account_wrong_address : LendingError
  referrer_account_referrer_missmatch referrer_account_missing : LendingError
  insufficient_referral_fees_to_redeem cpi_disabled short_url_not_ascii_alphanumeric : LendingError
  reserve_obsolete elevation_group_already_activated obligation_in_obsolete_reserve : LendingError
  referrer_state_owner_mismatch user_metadata_owner_already_set collateral_non_liquidatable :
      LendingError
  borrowing_disabled borrow_limit_exceeded deposit_limit_exceeded : LendingError
  borrowing_disabled_outside_elevation_group net_value_remaining_too_small : LendingError
  worse_ltv_blocked liabilities_bigger_than_assets reserve_token_balance_mismatch : LendingError
  reserve_vault_balance_mismatch reserve_accounting_mismatch : LendingError
  borrowing_above_utilization_rate_disabled liquidation_borrow_factor_priority : LendingError
  liquidation_lowest_liquidation_ltv_priority elevation_group_borrow_limit_exceeded : LendingError
  elevation_group_without_debt_reserve elevation_group_max_collateral_reserve_zero : LendingError
  elevation_group_has_another_debt_reserve elevation_group_debt_reserve_as_collateral : LendingError
  obligation_collateral_exceeds_elevation_group_limit : LendingError
  obligation_elevation_group_multiple_debt_reserve unsupported_token_extension : LendingError
  invalid_token_account deposit_disabled_outside_elevation_group : LendingError
  cannot_calculate_referral_amount_due_to_slots_mismatch obligation_owners_must_match : LendingError
  obligations_must_match lending_markets_must_match : LendingError
  obligation_currently_marked_for_deleveraging maximum_withdraw_value_zero : LendingError
  zero_max_ltv_assets_in_deposits lowest_ltv_assets_priority worse_ltv_than_unhealthy_ltv :
      LendingError
  farm_accounts_missing repay_too_small_for_full_liquidation insufficient_repay_amount :
      LendingError
  order_index_out_of_bounds invalid_order_configuration : LendingError
  order_configuration_not_supported_by_obligation : LendingError
  operation_not_permitted_with_current_obligation_orders : LendingError
  operation_not_permitted_market_immutable order_creation_disabled no_upgrade_authority :
      LendingError
  initial_admin_deposit_executed reserve_has_not_received_initial_deposit : LendingError
  c_token_usage_blocked cannot_use_same_reserve transaction_includes_restricted_programs :
      LendingError
  borrow_order_debt_liquidity_mint_mismatch borrow_order_max_borrow_rate_exceeded : LendingError
  borrow_order_min_debt_term_insufficient borrow_order_fill_time_limit_exceeded : LendingError
  reserve_debt_maturity_reached non_updatable_order_configuration : LendingError
  borrow_order_execution_disabled debt_reached_reserve_debt_term expectation_not_met : LendingError
  borrow_order_fill_value_too_small withdraw_ticket_issuance_disabled : LendingError
  withdraw_ticket_redemption_disabled withdraw_ticket_still_valid : LendingError
  withdraw_ticket_requires_full_redemption user_token_balance_mismatch : LendingError
  withdraw_queued_liquidity_value_too_small invalid_token_account_state : LendingError
  withdraw_ticket_invalid borrow_order_value_too_small withdraw_ticket_value_too_small :
      LendingError
  invalid_withdraw_ticket_progress_callback_config : LendingError
  withdraw_ticket_progress_callback_accounts_missing borrow_rollover_configuration_disabled :
      LendingError
  invalid_obligation_config_update_subject borrow_rollover_liquidity_mint_mismatch : LendingError
  obligation_borrow_rollover_not_applicable obligation_borrow_outside_rollover_window : LendingError
  obligation_borrow_rollover_not_enabled_by_owner : LendingError
  obligation_borrow_rollover_target_reserve_mismatch borrow_rollover_execution_disabled :
      LendingError
  obligation_accounting_mismatch partial_rollover_value_too_small : LendingError
  obligation_borrow_rollover_config_mismatch : LendingError
  obligation_borrow_rollover_must_prolong_debt_term rollover_not_supported_in_elevation_group :
      LendingError
  withdraw_ticket_cancellation_disabled withdraw_ticket_fully_cancelled : LendingError
  clone_source_reserve_disabled clone_target_reserve_already_in_use : LendingError
  cloned_reserve_liquidity_mint_mismatch reserve_emergency_mode : LendingError
  obligation_ownership_transfer_in_progress : LendingError
  obligation_ownership_transfer_not_in_initiated_state obligation_pending_owner_not_set :
      LendingError
  obligation_invalid_pending_owner obligation_ownership_transfer_not_approved : LendingError
  obligation_has_active_borrow_orders only_compute_budget_companion_ixs_allowed : LendingError
  missing_permissioner reserve_rewards_disabled : LendingError
