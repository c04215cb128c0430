-- ===== src/Obligation/Queries.antt =====
-- The methods of `Obligation` that read it, and those that mark it for deleveraging
-- (klend/programs/klend/src/state/obligation.rs).
use solana_auditor_skill.Prelude.{
  ℕ, ◌+◌, ◌-◌, Bool, not, ◌&&◌, ◌||◌, Option, some, none, List, [], ◌∷◌, ltb, ◌==◌, if◌then◌else◌,
  count, all, filter, get_elem?, position,
}
use solana_auditor_skill.Outcome.{Outcome, ok, panic, ◌>>=◌, ◌>>◌, refuse_if, ok_or, fit}
use solana_auditor_skill.Errors.{
  obligation_currently_marked_for_deleveraging, obligation_deposits_empty, obligation_borrows_empty,
  invalid_obligation_collateral, invalid_obligation_liquidity,
}
use solana_auditor_skill.Numerics.{Numerics}
use solana_auditor_skill.Fraction.{to_ceil}
use solana_auditor_skill.Reserve.Types.{Pubkey}
use solana_auditor_skill.Obligation.Types.{
  Obligation, ObligationCollateral, ObligationLiquidity, default_key,
}

abbrev pub is_active_collateral : ObligationCollateral → Bool
is_active_collateral c = not (c.deposit_reserve == default_key)

abbrev pub is_active_liquidity : ObligationLiquidity → Bool
is_active_liquidity l = not (l.borrow_reserve == default_key)

abbrev pub is_active_deposits_empty : Obligation → Bool
is_active_deposits_empty o = all (λ c. not (is_active_collateral c)) o.deposits

abbrev pub is_active_borrows_empty : Obligation → Bool
is_active_borrows_empty o = all (λ l. not (is_active_liquidity l)) o.borrows

abbrev pub active_deposits_count : Obligation → ℕ
active_deposits_count o = count is_active_collateral o.deposits

abbrev pub active_borrows_count : Obligation → ℕ
active_borrows_count o = count is_active_liquidity o.borrows

-- `only_element` of klend/programs/klend/src/utils/validation.rs.
abbrev pub only_element {ℓ} : {A : Type ℓ} → List A → Option A
only_element [] = none
only_element (a ∷ []) = some a
only_element (a ∷ b ∷ rest) = none

abbrev pub single_debt : Obligation → Option ObligationLiquidity
single_debt o = only_element (filter is_active_liquidity o.borrows)

abbrev pub single_collateral : Obligation → Option ObligationCollateral
single_collateral o = only_element (filter is_active_collateral o.deposits)

abbrev pub is_single_debt_single_coll : Obligation → Bool
is_single_debt_single_coll o = (active_deposits_count o == 1) && (active_borrows_count o == 1)

abbrev pub has_referrer : Obligation → Bool
has_referrer o = not (o.referrer == default_key)

abbrev pub has_obsolete_reserves : Obligation → Bool
has_obsolete_reserves o =
    ltb 0 o.num_of_obsolete_borrow_reserves || ltb 0 o.num_of_obsolete_deposit_reserves

unfoldable pub update_has_debt : Obligation → Obligation
update_has_debt o = record o { has_debt = if is_active_borrows_empty o then 0 else 1 }

abbrev pub owes : Obligation → Bool
owes o = o.has_debt == 1

abbrev pub is_marked_for_deleveraging : Obligation → Bool
is_marked_for_deleveraging o = not (o.autodeleverage_margin_call_started_timestamp == 0)

unfoldable pub mark_for_deleveraging : Obligation → ℕ → ℕ → Outcome Obligation
mark_for_deleveraging o current_timestamp target_ltv_pct =
    if current_timestamp == 0
    then panic
    else ok (record o {
      autodeleverage_margin_call_started_timestamp = current_timestamp;
      autodeleverage_target_ltv_pct = target_ltv_pct;
    })

unfoldable pub unmark_for_deleveraging : Obligation → Obligation
unmark_for_deleveraging o = record o {
  autodeleverage_margin_call_started_timestamp = 0;
  autodeleverage_target_ltv_pct = 0;
}

unfoldable pub check_not_marked_for_deleveraging : Obligation → Outcome (Unit {0})
check_not_marked_for_deleveraging o =
    refuse_if (is_marked_for_deleveraging o) obligation_currently_marked_for_deleveraging

unfoldable pub position_of_collateral_in_deposits : Obligation → Pubkey → Outcome ℕ
position_of_collateral_in_deposits o deposit_reserve = do
  refuse_if (is_active_deposits_empty o) obligation_deposits_empty
  ok_or (position (λ c. c.deposit_reserve == deposit_reserve) o.deposits)
      invalid_obligation_collateral

abbrev pub find_liquidity_index_in_borrows : Obligation → Pubkey → Option ℕ
find_liquidity_index_in_borrows o borrow_reserve =
    position (λ l. l.borrow_reserve == borrow_reserve) o.borrows

-- The index; the slot itself is read from the list.
unfoldable pub find_liquidity_in_borrows : Obligation → Pubkey → Outcome ℕ
find_liquidity_in_borrows o borrow_reserve = do
  refuse_if (is_active_borrows_empty o) obligation_borrows_empty
  ok_or (find_liquidity_index_in_borrows o borrow_reserve) invalid_obligation_liquidity

unfoldable pub get_active_borrow : Obligation → ℕ → Outcome ObligationLiquidity
get_active_borrow o index = do
  borrow ← ok_or (get_elem? o.borrows index) invalid_obligation_liquidity
  refuse_if (not (is_active_liquidity borrow)) invalid_obligation_liquidity
  ok borrow

abbrev pub borrowed_total : List ObligationLiquidity → ℕ
borrowed_total [] = 0
borrowed_total (l ∷ ls) = l.borrowed_amount_sf + borrowed_total ls

module _ ⦃n : Numerics⦄ where
  unfoldable pub loan_to_value : Obligation → Outcome ℕ
  loan_to_value o = n.div o.borrow_factor_adjusted_debt_value_sf o.deposited_value_sf

  unfoldable pub no_bf_loan_to_value : Obligation → Outcome ℕ
  no_bf_loan_to_value o = n.div o.borrowed_assets_market_value_sf o.deposited_value_sf

  unfoldable pub unhealthy_loan_to_value : Obligation → Outcome ℕ
  unhealthy_loan_to_value o = n.div o.unhealthy_borrow_value_sf o.deposited_value_sf

  abbrev pub remaining_borrow_value : Obligation → ℕ
  remaining_borrow_value o = o.allowed_borrow_value_sf - o.borrow_factor_adjusted_debt_value_sf

  -- A partial sum that leaves 128 bits panics as the whole does, since the terms are not negative.
  unfoldable pub get_borrowed_amount_if_single_token : Obligation → Outcome (Option ℕ)
  get_borrowed_amount_if_single_token o = if ltb 1 (active_borrows_count o) then ok none else do
    total ← fit 128 (borrowed_total o.borrows)
    amount ← to_ceil 64 total
    ok (some amount)
