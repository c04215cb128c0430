-- ===== src/Market.antt =====
-- The settings of a lending market (klend/programs/klend/src/state/lending_market.rs). Padding is left
-- out. `Clock` is the runtime's, of which the program reads the slot and the time; a time before 1970
-- panics where the program reads one, and has no model here.
use solana_auditor_skill.Prelude.{
  ℕ, ◌-◌, ◌==◌, Bool, not, Option, some, none, if◌then◌else◌, List, get_elem?, set_at, ltb, length,
}
use solana_auditor_skill.Outcome.{Outcome, ok, err, panic, ◌>>=◌, ok_or}
use solana_auditor_skill.Errors.{
  invalid_elevation_group, invalid_elevation_group_config, borrow_rollover_execution_disabled,
}
use solana_auditor_skill.Numerics.{Numerics}
use solana_auditor_skill.Fraction.{from_percent}
use solana_auditor_skill.Reserve.Types.{Pubkey}
use solana_auditor_skill.Obligation.Types.{elevation_group_none}
use solana_auditor_skill.Obligation.Rollover.{
  RolloverMode, from_fixed_to_fixed_term, from_fixed_to_open_term, from_open_to_fixed_term,
}

pub record Clock : Type 0 where
  pub slot : ℕ
  pub unix_timestamp : ℕ

pub record ElevationGroup : Type 0 where
  pub max_liquidation_bonus_bps : ℕ
  pub id : ℕ
  pub ltv_pct : ℕ
  pub liquidation_threshold_pct : ℕ
  pub allow_new_loans : ℕ
  pub max_reserves_as_collateral : ℕ
  pub debt_reserve : Pubkey

abbrev pub new_loans_disabled : ElevationGroup → Bool
new_loans_disabled g = g.allow_new_loans == 0

-- The position of a group in the tables of the reserves; a group has an id from 1 on.
unfoldable pub get_index : ElevationGroup → Outcome ℕ
get_index g = if g.id == 0 then panic else ok (g.id - 1)

pub record LendingMarket : Type 0 where
  pub version : ℕ
  pub bump_seed : ℕ
  pub lending_market_owner : Pubkey
  pub lending_market_owner_cached : Pubkey
  pub quote_currency : List ℕ
  pub referral_fee_bps : ℕ
  pub emergency_mode : ℕ
  pub autodeleverage_enabled : ℕ
  pub borrow_disabled : ℕ
  pub price_refresh_trigger_to_max_age_pct : ℕ
  pub liquidation_max_debt_close_factor_pct : ℕ
  pub insolvency_risk_unhealthy_ltv_pct : ℕ
  pub min_full_liquidation_value_threshold : ℕ
  pub max_liquidatable_debt_market_value_at_once : ℕ
  pub global_allowed_borrow_value : ℕ
  pub emergency_council : Pubkey
  pub elevation_groups : List ElevationGroup
  pub min_net_value_in_obligation_sf : ℕ
  pub min_value_skip_liquidation_ltv_checks : ℕ
  pub name : List ℕ
  pub min_value_skip_liquidation_bf_checks : ℕ
  pub individual_autodeleverage_margin_call_period_secs : ℕ
  pub min_initial_deposit_amount : ℕ
  pub obligation_order_execution_enabled : ℕ
  pub immutable : ℕ
  pub obligation_order_creation_enabled : ℕ
  pub price_triggered_liquidation_disabled : ℕ
  pub mature_reserve_debt_liquidation_enabled : ℕ
  pub obligation_borrow_debt_term_liquidation_enabled : ℕ
  pub borrow_order_creation_enabled : ℕ
  pub borrow_order_execution_enabled : ℕ
  pub proposer_authority : Pubkey
  pub min_borrow_order_fill_value : ℕ
  pub withdraw_ticket_issuance_enabled : ℕ
  pub withdraw_ticket_redemption_enabled : ℕ
  pub obligation_borrow_rollover_configuration_enabled : ℕ
  pub obligation_borrow_migration_to_fixed_execution_enabled : ℕ
  pub withdraw_ticket_cancellation_enabled : ℕ
  pub reserve_rewards_max_apr_bps : ℕ
  pub min_withdraw_queued_liquidity_value : ℕ
  pub fixed_term_rollover_window_duration_seconds : ℕ
  pub open_term_rollover_window_duration_seconds : ℕ
  pub min_partial_rollover_value : ℕ
  pub term_based_full_liquidation_duration_secs : ℕ
  pub permissioning_authority : Pubkey
  pub permissioned_ops : ℕ

-- `LendingMarket::get_elevation_group`
unfoldable pub market_elevation_group : LendingMarket → ℕ → Outcome (Option ElevationGroup)
market_elevation_group m id = if id == elevation_group_none then ok none else do
  group ← ok_or (get_elem? m.elevation_groups (id - 1)) invalid_elevation_group
  ok (some group)

unfoldable pub set_elevation_group : LendingMarket → ElevationGroup → Outcome LendingMarket
set_elevation_group m g =
    if g.id == elevation_group_none
    then err invalid_elevation_group_config
    else if ltb (g.id - 1) (length m.elevation_groups)
    then ok (record m { elevation_groups = set_at m.elevation_groups (g.id - 1) g })
    else panic

abbrev pub is_borrowing_disabled : LendingMarket → Bool
is_borrowing_disabled m = not (m.borrow_disabled == 0)

abbrev pub is_price_triggered_liquidation_disabled : LendingMarket → Bool
is_price_triggered_liquidation_disabled m = not (m.price_triggered_liquidation_disabled == 0)

abbrev pub is_autodeleverage_enabled : LendingMarket → Bool
is_autodeleverage_enabled m = not (m.autodeleverage_enabled == 0)

abbrev pub is_obligation_order_creation_enabled : LendingMarket → Bool
is_obligation_order_creation_enabled m = not (m.obligation_order_creation_enabled == 0)

-- When a borrow may be rolled over: at any time, or so many seconds before its debt expires.
pub data AllowedRolloverTime : Type 0 where
  always : AllowedRolloverTime
  before_debt_expiration : ℕ → AllowedRolloverTime

abbrev pub within : ℕ → Outcome AllowedRolloverTime
within seconds =
    if seconds == 0
    then err borrow_rollover_execution_disabled
    else ok (before_debt_expiration seconds)

unfoldable pub resolve_allowed_rollover_time :
    LendingMarket → RolloverMode → Outcome AllowedRolloverTime
resolve_allowed_rollover_time m from_fixed_to_fixed_term =
    within m.fixed_term_rollover_window_duration_seconds
resolve_allowed_rollover_time m from_fixed_to_open_term =
    within m.open_term_rollover_window_duration_seconds
resolve_allowed_rollover_time m from_open_to_fixed_term =
    if m.obligation_borrow_migration_to_fixed_execution_enabled == 0
    then err borrow_rollover_execution_disabled
    else ok always

abbrev pub get_term_based_full_liquidation_duration_secs : LendingMarket → Option ℕ
get_term_based_full_liquidation_duration_secs m =
    if m.term_based_full_liquidation_duration_secs == 0
    then none
    else some m.term_based_full_liquidation_duration_secs

module _ ⦃n : Numerics⦄ where
  unfoldable pub get_insolvency_risk_unhealthy_ltv : LendingMarket → Outcome ℕ
  get_insolvency_risk_unhealthy_ltv m = from_percent m.insolvency_risk_unhealthy_ltv_pct

  unfoldable pub get_liquidation_max_debt_close_factor : LendingMarket → Outcome ℕ
  get_liquidation_max_debt_close_factor m = from_percent m.liquidation_max_debt_close_factor_pct

  unfoldable pub get_max_liquidatable_debt_market_value_at_once : LendingMarket → Outcome ℕ
  get_max_liquidatable_debt_market_value_at_once m =
      n.from_num m.max_liquidatable_debt_market_value_at_once
