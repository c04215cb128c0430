-- ===== src/Obligation/Orders.antt =====
-- The orders of an obligation (klend/programs/klend/src/state/obligation_order_operations.rs, and the
-- methods of `ObligationOrder` in klend/programs/klend/src/state/obligation.rs).
use solana_auditor_skill.Prelude.{
  ℕ, ◌+◌, ◌-◌, ◌*◌, ◌/◌, ◌^◌, ◌==◌, Bool, true, false, not, ◌&&◌, ltb, leb, Option, some, none,
  if◌then◌else◌, List, [], ◌∷◌, map, get_elem?, set_at, length,
}
use solana_auditor_skill.Outcome.{Outcome, ok, err, ◌>>=◌, ◌>>◌, refuse_if, require, unwrap}
use solana_auditor_skill.Errors.{
  operation_not_permitted_with_current_obligation_orders, invalid_order_configuration,
  order_configuration_not_supported_by_obligation, order_index_out_of_bounds,
  order_creation_disabled,
}
use solana_auditor_skill.Numerics.{Numerics, one}
use solana_auditor_skill.Fraction.{from_bps}
use solana_auditor_skill.Reserve.Types.{Reserve}
use solana_auditor_skill.Obligation.Types.{Obligation, ObligationOrder, no_order, is_no_order}
use solana_auditor_skill.Obligation.Queries.{
  is_single_debt_single_coll, single_debt, owes, loan_to_value, unhealthy_loan_to_value,
}

pub data ConditionType : Type 0 where
  never user_ltv_above user_ltv_below : ConditionType
  debt_coll_price_ratio_above debt_coll_price_ratio_below : ConditionType
  always liquidation_ltv_closer_than : ConditionType

pub data OpportunityType : Type 0 where
  deleverage_single_debt_amount deleverage_all_debt : OpportunityType

-- `try_from` of the byte.
abbrev pub condition_of : ℕ → Option ConditionType
condition_of b =
    if b == 0
    then some never
    else if b == 1
    then some user_ltv_above
    else if b == 2
    then some user_ltv_below
    else if b == 3
    then some debt_coll_price_ratio_above
    else if b == 4
    then some debt_coll_price_ratio_below
    else if b == 5
    then some always
    else if b == 6
    then some liquidation_ltv_closer_than
    else none

abbrev pub opportunity_of : ℕ → Option OpportunityType
opportunity_of b =
    if b == 0
    then some deleverage_single_debt_amount
    else if b == 1
    then some deleverage_all_debt
    else none

abbrev pub is_some {ℓ} : {A : Type ℓ} → Option A → Bool
is_some none = false
is_some (some a) = true

abbrev pub condition_is_supported : ConditionType → Obligation → Bool
condition_is_supported debt_coll_price_ratio_above o = is_single_debt_single_coll o
condition_is_supported debt_coll_price_ratio_below o = is_single_debt_single_coll o
condition_is_supported _ o = true

abbrev pub opportunity_is_supported : OpportunityType → Obligation → Bool
opportunity_is_supported deleverage_single_debt_amount o = is_some (single_debt o)
opportunity_is_supported deleverage_all_debt o = true

abbrev pub is_price_triggered : ConditionType → Bool
is_price_triggered never = false
is_price_triggered always = false
is_price_triggered _ = true

-- `ObligationOrder::is_supported_by`; a byte that is no type panics.
unfoldable pub is_supported_by : ObligationOrder → Obligation → Outcome Bool
is_supported_by order o = if is_no_order order then ok true else do
  condition ← unwrap (condition_of order.condition_type)
  if not (condition_is_supported condition o) then ok false else do
    opportunity ← unwrap (opportunity_of order.opportunity_type)
    ok (opportunity_is_supported opportunity o)

-- `any(|order| !order.is_supported_by(obligation))`, which stops at the first such order.
unfoldable pub any_unsupported : List ObligationOrder → Obligation → Outcome Bool
any_unsupported [] o = ok false
any_unsupported (order ∷ orders) o =
    is_supported_by order o >>= λ supported. if supported then any_unsupported orders o else ok true

unfoldable pub check_orders_supported_after_user_operation : Obligation → Outcome (Unit {0})
check_orders_supported_after_user_operation o = do
  unsupported ← any_unsupported o.obligation_orders o
  refuse_if unsupported operation_not_permitted_with_current_obligation_orders

unfoldable pub remove_all_orders : Obligation → Obligation
remove_all_orders o = record o { obligation_orders = map (λ order. no_order) o.obligation_orders }

unfoldable pub clear_obligation_orders_if_no_debt : Obligation → Obligation
unfolding remove_all_orders
clear_obligation_orders_if_no_debt o = if owes o then o else remove_all_orders o

abbrev pub is_active_order : ObligationOrder → Bool
is_active_order order = not (order.condition_type == 0)

-- A decimal `p / q` as the nearest fraction, which is what the macro `fraction!` gives.
abbrev pub literal : ℕ → ℕ → ℕ
literal p q = (one * p * 2 + q) / (2 * q)

-- `Fraction::MAX`
abbrev pub max_fraction : ℕ
max_fraction = 2 ^ 128 - 1

abbrev pub is_valid_price_ratio : ℕ → Bool
is_valid_price_ratio f = leb (literal 1 (10 ^ 15)) f && leb f (literal (10 ^ 15) 1)

-- `VALID_USER_LTV_RANGE` and `VALID_DIFF_TO_LIQUIDATION_LTV_RANGE`
abbrev pub is_valid_ltv : ℕ → Bool
is_valid_ltv f = leb (literal 1 100) f && ltb f one

abbrev pub execution_bonus_sanity_limit : ℕ
execution_bonus_sanity_limit = literal 1 10

-- The test of the threshold of a condition other than `never`, where the ends of the bonus are given.
abbrev pub is_valid_threshold : ConditionType → ObligationOrder → ℕ → ℕ → Bool
is_valid_threshold never order low high = false
is_valid_threshold debt_coll_price_ratio_above order low high =
    is_valid_price_ratio order.condition_threshold_sf
is_valid_threshold debt_coll_price_ratio_below order low high =
    is_valid_price_ratio order.condition_threshold_sf
is_valid_threshold user_ltv_above order low high = is_valid_ltv order.condition_threshold_sf
is_valid_threshold user_ltv_below order low high = is_valid_ltv order.condition_threshold_sf
is_valid_threshold always order low high = (order.condition_threshold_sf == 0) && (low == high)
is_valid_threshold liquidation_ltv_closer_than order low high =
    is_valid_ltv order.condition_threshold_sf

abbrev pub is_valid_parameter : OpportunityType → ℕ → Bool
is_valid_parameter deleverage_single_debt_amount p = not (p == 0) && not (p == max_fraction)
is_valid_parameter deleverage_all_debt p = p == max_fraction

module _ ⦃n : Numerics⦄ where
  unfoldable pub validate_live_order : ObligationOrder → ConditionType → Outcome (Unit {0})
  validate_live_order order condition = do
    low ← from_bps order.min_execution_bonus_bps
    high ← from_bps order.max_execution_bonus_bps
    require (is_valid_threshold condition order low high) invalid_order_configuration
    elim (opportunity_of order.opportunity_type) [
      | none ↦ err invalid_order_configuration
      | some opportunity ↦ do
        require (is_valid_parameter opportunity order.opportunity_parameter_sf)
            invalid_order_configuration
        refuse_if (ltb high low) invalid_order_configuration
        refuse_if (ltb execution_bonus_sanity_limit high) invalid_order_configuration
    ]

  -- A `never` order has to be all zero.
  unfoldable pub validate_order : ObligationOrder → Outcome (Unit {0})
  unfolding validate_live_order
  validate_order order = elim (condition_of order.condition_type) [
    | none ↦ err invalid_order_configuration
    | some never ↦ require (is_no_order order) invalid_order_configuration
    | some condition ↦ validate_live_order order condition
  ]

  -- `creation_enabled` is what the market's `is_obligation_order_creation_enabled` says.
  unfoldable pub set_order_on_obligation :
      (creation_enabled : Bool) → Obligation → ℕ → ObligationOrder → Outcome Obligation
  unfolding validate_order is_supported_by
  set_order_on_obligation creation_enabled o index order = do
    validate_order order
    supported ← is_supported_by order o
    require supported order_configuration_not_supported_by_obligation
    refuse_if (leb (length o.obligation_orders) index) order_index_out_of_bounds
    previous ← unwrap (get_elem? o.obligation_orders index)
    refuse_if (not (is_active_order previous) && is_active_order order && not creation_enabled)
        order_creation_disabled
    ok (record o { obligation_orders = set_at o.obligation_orders index order })

  -- A hit is the distance from the threshold, where there is one.
  unfoldable pub evaluate_stop_loss :
      (current_value condition_threshold liquidation_threshold : ℕ) → Outcome (Option (Option ℕ))
  evaluate_stop_loss current_value condition_threshold liquidation_threshold =
      if leb current_value condition_threshold
      then ok none
      else if leb liquidation_threshold condition_threshold
      then ok (some (some one))
      else do
        current_distance ← n.sub current_value condition_threshold
        maximum_distance ← n.sub liquidation_threshold condition_threshold
        distance ← n.div current_distance maximum_distance
        ok (some (some distance))

  unfoldable pub evaluate_take_profit :
      (current_value condition_threshold : ℕ) → Outcome (Option (Option ℕ))
  evaluate_take_profit current_value condition_threshold =
      if leb condition_threshold current_value then ok none else do
        towards_zero ← n.sub condition_threshold current_value
        distance ← n.div towards_zero condition_threshold
        ok (some (some distance))

  unfoldable pub calculate_price_ratio : Reserve → Reserve → Outcome ℕ
  calculate_price_ratio numerator denominator =
      n.div numerator.liquidity.market_price_sf denominator.liquidity.market_price_sf

  unfoldable pub evaluate_condition :
      ConditionType
      → (collateral_reserve debt_reserve : Reserve) → Obligation
      → ℕ
      → Outcome (Option (Option ℕ))
  evaluate_condition always collateral debt o threshold = ok (some none)
  evaluate_condition never collateral debt o threshold = ok none
  evaluate_condition user_ltv_above collateral debt o threshold = do
    ltv ← loan_to_value o
    unhealthy ← unhealthy_loan_to_value o
    evaluate_stop_loss ltv threshold unhealthy
  evaluate_condition user_ltv_below collateral debt o threshold =
      loan_to_value o >>= λ ltv. evaluate_take_profit ltv threshold
  evaluate_condition debt_coll_price_ratio_above collateral debt o threshold = do
    ratio ← calculate_price_ratio debt collateral
    unhealthy ← unhealthy_loan_to_value o
    scaled ← n.mul ratio unhealthy
    ltv ← loan_to_value o
    liquidation_ratio ← n.div scaled ltv
    evaluate_stop_loss ratio threshold liquidation_ratio
  evaluate_condition debt_coll_price_ratio_below collateral debt o threshold =
      calculate_price_ratio debt collateral >>= λ ratio. evaluate_take_profit ratio threshold
  evaluate_condition liquidation_ltv_closer_than collateral debt o threshold = do
    unhealthy ← unhealthy_loan_to_value o
    ltv ← loan_to_value o
    evaluate_stop_loss ltv (n.saturating_sub unhealthy threshold) unhealthy

  unfoldable pub evaluate_order_condition :
      (collateral_reserve debt_reserve : Reserve)
      → Obligation
      → ObligationOrder
      → Outcome (Option (Option ℕ))
  unfolding evaluate_condition
  evaluate_order_condition collateral debt o order = do
    condition ← unwrap (condition_of order.condition_type)
    evaluate_condition condition collateral debt o order.condition_threshold_sf

  -- `ObligationOrder::consume`
  unfoldable pub consume : ObligationOrder → ℕ → Outcome ObligationOrder
  consume order debt_repay_amount = do
    opportunity ← unwrap (opportunity_of order.opportunity_type)
    elim opportunity [
      | deleverage_all_debt ↦ ok order
      | deleverage_single_debt_amount ↦ do
        repaid ← n.from_num debt_repay_amount
        let left = n.saturating_sub order.opportunity_parameter_sf repaid
        ok (if left == 0 then no_order else record order { opportunity_parameter_sf = left })
    ]

  -- `find_applicable_obligation_order`, with the index of the first order given.
  unfoldable pub find_applicable_from :
      ℕ
      → List ObligationOrder
      → (collateral_reserve debt_reserve : Reserve) → Obligation
      → Bool
      → Outcome (Option (ℕ × Option ℕ))
  unfolding evaluate_order_condition
  find_applicable_from i [] collateral debt o disabled = ok none
  find_applicable_from i (order ∷ orders) collateral debt o disabled = do
    let later = find_applicable_from (i + 1) orders collateral debt o disabled
    hit ← evaluate_order_condition collateral debt o order
    elim hit [
      | none ↦ later
      | some distance ↦ do
        condition ← unwrap (condition_of order.condition_type)
        if is_price_triggered condition && disabled then later else ok (some (i, distance))
    ]

  unfoldable pub find_applicable_obligation_order :
      (collateral_reserve debt_reserve : Reserve)
      → Obligation
      → Bool
      → Outcome (Option (ℕ × Option ℕ))
  unfolding find_applicable_from
  find_applicable_obligation_order collateral debt o disabled =
      find_applicable_from 0 o.obligation_orders collateral debt o disabled
