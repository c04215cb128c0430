-- ===== src/Obligation/Types.antt =====
-- The data of an obligation (klend/programs/klend/src/state/obligation.rs). Arrays are lists, a slot
-- whose reserve is the default key is free, and padding is left out.
use solana_auditor_skill.Prelude.{ℕ, Bool, ◌&&◌, ◌==◌, List, replicate}
use solana_auditor_skill.LastUpdate.{LastUpdate, new}
use solana_auditor_skill.Reserve.Types.{Pubkey}

-- `Pubkey::default()`
abbrev pub default_key : Pubkey
default_key = 0

abbrev pub elevation_group_none : ℕ
elevation_group_none = 0

-- `no_transfer` is `OwnershipTransferState::None`.
pub data OwnershipTransferState : Type 0 where
  no_transfer initiated approved : OwnershipTransferState

pub record FixedTermBorrowRolloverConfig : Type 0 where
  pub auto_rollover_enabled : ℕ
  pub open_term_allowed : ℕ
  pub migration_to_fixed_enabled : ℕ
  pub max_borrow_rate_bps : ℕ
  pub min_debt_term_seconds : ℕ

abbrev pub no_rollover : FixedTermBorrowRolloverConfig
no_rollover = record {
  auto_rollover_enabled = 0;
  open_term_allowed = 0;
  migration_to_fixed_enabled = 0;
  max_borrow_rate_bps = 0;
  min_debt_term_seconds = 0;
}

pub record ObligationCollateral : Type 0 where
  pub deposit_reserve : Pubkey
  pub deposited_amount : ℕ
  pub market_value_sf : ℕ
  pub borrowed_amount_against_this_collateral_in_elevation_group : ℕ

-- `ObligationCollateral::new`; with the default key it is `default()`.
abbrev pub new_collateral : Pubkey → ObligationCollateral
new_collateral deposit_reserve = record {
  deposit_reserve = deposit_reserve;
  deposited_amount = 0;
  market_value_sf = 0;
  borrowed_amount_against_this_collateral_in_elevation_group = 0;
}

pub record ObligationLiquidity : Type 0 where
  pub borrow_reserve : Pubkey
  pub cumulative_borrow_rate_bsf : ℕ
  pub last_borrowed_at_timestamp : ℕ
  pub borrowed_amount_sf : ℕ
  pub market_value_sf : ℕ
  pub borrow_factor_adjusted_market_value_sf : ℕ
  pub borrowed_amount_outside_elevation_groups : ℕ
  pub fixed_term_borrow_rollover_config : FixedTermBorrowRolloverConfig
  pub borrowed_amount_at_expiration : ℕ

-- `ObligationLiquidity::new`; with the default key and rate it is `default()`.
abbrev pub new_liquidity : Pubkey → ℕ → ObligationLiquidity
new_liquidity borrow_reserve cumulative_borrow_rate_bf = record {
  borrow_reserve = borrow_reserve;
  cumulative_borrow_rate_bsf = cumulative_borrow_rate_bf;
  last_borrowed_at_timestamp = 0;
  borrowed_amount_sf = 0;
  market_value_sf = 0;
  borrow_factor_adjusted_market_value_sf = 0;
  borrowed_amount_outside_elevation_groups = 0;
  fixed_term_borrow_rollover_config = no_rollover;
  borrowed_amount_at_expiration = 0;
}

pub record ObligationOrder : Type 0 where
  pub condition_threshold_sf : ℕ
  pub opportunity_parameter_sf : ℕ
  pub min_execution_bonus_bps : ℕ
  pub max_execution_bonus_bps : ℕ
  pub condition_type : ℕ
  pub opportunity_type : ℕ

abbrev pub no_order : ObligationOrder
no_order = record {
  condition_threshold_sf = 0;
  opportunity_parameter_sf = 0;
  min_execution_bonus_bps = 0;
  max_execution_bonus_bps = 0;
  condition_type = 0;
  opportunity_type = 0;
}

-- `order == ObligationOrder::default()`
unfoldable pub is_no_order : ObligationOrder → Bool
is_no_order o =
    (o.condition_threshold_sf == 0)
    && (o.opportunity_parameter_sf == 0)
    && (o.min_execution_bonus_bps == 0)
    && (o.max_execution_bonus_bps == 0)
    && (o.condition_type == 0)
    && (o.opportunity_type == 0)

pub record BorrowOrder : Type 0 where
  pub debt_liquidity_mint : Pubkey
  pub remaining_debt_amount : ℕ
  pub filled_debt_destination : Pubkey
  pub min_debt_term_seconds : ℕ
  pub fillable_until_timestamp : ℕ
  pub placed_at_timestamp : ℕ
  pub last_updated_at_timestamp : ℕ
  pub requested_debt_amount : ℕ
  pub max_borrow_rate_bps : ℕ
  pub active : ℕ
  pub enable_auto_rollover_on_filled_borrows : ℕ

abbrev pub no_borrow_order : BorrowOrder
no_borrow_order = record {
  debt_liquidity_mint = default_key;
  remaining_debt_amount = 0;
  filled_debt_destination = default_key;
  min_debt_term_seconds = 0;
  fillable_until_timestamp = 0;
  placed_at_timestamp = 0;
  last_updated_at_timestamp = 0;
  requested_debt_amount = 0;
  max_borrow_rate_bps = 0;
  active = 0;
  enable_auto_rollover_on_filled_borrows = 0;
}

-- `order == BorrowOrder::default()`
unfoldable pub is_no_borrow_order : BorrowOrder → Bool
is_no_borrow_order b =
    (b.debt_liquidity_mint == default_key)
    && (b.remaining_debt_amount == 0)
    && (b.filled_debt_destination == default_key)
    && (b.min_debt_term_seconds == 0)
    && (b.fillable_until_timestamp == 0)
    && (b.placed_at_timestamp == 0)
    && (b.last_updated_at_timestamp == 0)
    && (b.requested_debt_amount == 0)
    && (b.max_borrow_rate_bps == 0)
    && (b.active == 0)
    && (b.enable_auto_rollover_on_filled_borrows == 0)

pub record Obligation : Type 0 where
  pub tag : ℕ
  pub last_update : LastUpdate
  pub lending_market : Pubkey
  pub owner : Pubkey
  pub deposits : List ObligationCollateral
  pub lowest_reserve_deposit_liquidation_ltv : ℕ
  pub deposited_value_sf : ℕ
  pub borrows : List ObligationLiquidity
  pub borrow_factor_adjusted_debt_value_sf : ℕ
  pub borrowed_assets_market_value_sf : ℕ
  pub allowed_borrow_value_sf : ℕ
  pub unhealthy_borrow_value_sf : ℕ
  pub elevation_group : ℕ
  pub num_of_obsolete_deposit_reserves : ℕ
  pub has_debt : ℕ
  pub referrer : Pubkey
  pub borrowing_disabled : ℕ
  pub autodeleverage_target_ltv_pct : ℕ
  pub lowest_reserve_deposit_max_ltv_pct : ℕ
  pub num_of_obsolete_borrow_reserves : ℕ
  pub ownership_transfer_state : ℕ
  pub highest_borrow_factor_pct : ℕ
  pub autodeleverage_margin_call_started_timestamp : ℕ
  pub obligation_orders : List ObligationOrder
  pub borrow_order : BorrowOrder
  pub pending_owner : Pubkey

-- `Obligation::init`, with the parameters of `InitObligationParams`.
abbrev pub init :
    (current_slot : ℕ) (lending_market owner : Pubkey) (deposits : List ObligationCollateral)
    (borrows : List ObligationLiquidity) (tag : ℕ) (referrer : Pubkey)
    → Obligation
init current_slot lending_market owner deposits borrows tag referrer = record {
  tag = tag;
  last_update = new current_slot;
  lending_market = lending_market;
  owner = owner;
  deposits = deposits;
  lowest_reserve_deposit_liquidation_ltv = 0;
  deposited_value_sf = 0;
  borrows = borrows;
  borrow_factor_adjusted_debt_value_sf = 0;
  borrowed_assets_market_value_sf = 0;
  allowed_borrow_value_sf = 0;
  unhealthy_borrow_value_sf = 0;
  elevation_group = elevation_group_none;
  num_of_obsolete_deposit_reserves = 0;
  has_debt = 0;
  referrer = referrer;
  borrowing_disabled = 0;
  autodeleverage_target_ltv_pct = 0;
  lowest_reserve_deposit_max_ltv_pct = 0;
  num_of_obsolete_borrow_reserves = 0;
  ownership_transfer_state = 0;
  highest_borrow_factor_pct = 0;
  autodeleverage_margin_call_started_timestamp = 0;
  obligation_orders = replicate 2 no_order;
  borrow_order = no_borrow_order;
  pending_owner = default_key;
}
