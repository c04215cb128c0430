-- ===== src/Obligation/Slots.antt =====
-- The slots of an obligation: finding and adding a reserve, and what enters and leaves a slot
-- (klend/programs/klend/src/state/obligation.rs). A method that returns a reference into the slots
-- returns the index; one that also writes returns the obligation with it.
pub mod Balances
pub mod Keys
use solana_auditor_skill.Prelude.{
  ℕ, ◌==◌, Bool, true, false, not, Option, some, none, if◌then◌else◌, List, get_elem?, set_at,
  position,
}
use solana_auditor_skill.Outcome.{
  Outcome, ok, err, panic, ◌>>=◌, ok_or, unwrap, checked_add, checked_sub,
}
use solana_auditor_skill.Errors.{obligation_reserve_limit, math_overflow}
use solana_auditor_skill.Numerics.{Numerics}
use solana_auditor_skill.Reserve.Types.{Pubkey}
use solana_auditor_skill.Obligation.Types.{
  Obligation, ObligationCollateral, ObligationLiquidity, new_collateral, new_liquidity, default_key,
}
use solana_auditor_skill.Obligation.Queries.{
  is_active_collateral, is_active_liquidity, find_liquidity_index_in_borrows,
}

pub data WithdrawResult : Type 0 where
  full partial : WithdrawResult

-- The slot where the reserve was found, or else the first free one, if there is one. With it go the
-- obligation, and whether the slot is new.
abbrev pub slot_of_collateral :
    Obligation → Pubkey → (found free : Option ℕ) → Outcome (Obligation × ℕ × Bool)
slot_of_collateral o deposit_reserve (some i) free = ok (o, i, false)
slot_of_collateral o deposit_reserve none (some i) =
    ok (record o { deposits = set_at o.deposits i (new_collateral deposit_reserve) }, i, true)
slot_of_collateral o deposit_reserve none none = err obligation_reserve_limit

unfoldable pub find_or_add_collateral_to_deposits :
    Obligation → Pubkey → Outcome (Obligation × ℕ × Bool)
find_or_add_collateral_to_deposits o deposit_reserve =
    slot_of_collateral o deposit_reserve
      (position (λ c. c.deposit_reserve == deposit_reserve) o.deposits)
      (position (λ c. not (is_active_collateral c)) o.deposits)

abbrev pub slot_of_liquidity :
    Obligation → Pubkey → ℕ → (found free : Option ℕ) → Outcome (Obligation × ℕ)
slot_of_liquidity o borrow_reserve rate (some i) free = ok (o, i)
slot_of_liquidity o borrow_reserve rate none (some i) =
    ok (record o { borrows = set_at o.borrows i (new_liquidity borrow_reserve rate) }, i)
slot_of_liquidity o borrow_reserve rate none none = err obligation_reserve_limit

unfoldable pub find_or_add_liquidity_to_borrows : Obligation → Pubkey → ℕ → Outcome (Obligation × ℕ)
find_or_add_liquidity_to_borrows o borrow_reserve cumulative_borrow_rate =
    slot_of_liquidity o borrow_reserve cumulative_borrow_rate
      (find_liquidity_index_in_borrows o borrow_reserve)
      (position (λ l. not (is_active_liquidity l)) o.borrows)

-- `ObligationCollateral::deposit` and `withdraw`
unfoldable pub deposit_collateral : ObligationCollateral → ℕ → Outcome ObligationCollateral
deposit_collateral c collateral_amount = do
  total ← ok_or (checked_add 64 c.deposited_amount collateral_amount) math_overflow
  ok (record c { deposited_amount = total })

unfoldable pub withdraw_collateral : ObligationCollateral → ℕ → Outcome ObligationCollateral
withdraw_collateral c collateral_amount = do
  rest ← ok_or (checked_sub c.deposited_amount collateral_amount) math_overflow
  ok (record c { deposited_amount = rest })

-- `Obligation::withdraw`. An index past the end panics.
unfoldable pub withdraw : Obligation → ℕ → ℕ → Outcome (Obligation × WithdrawResult)
unfolding withdraw_collateral
withdraw o withdraw_amount collateral_index = do
  collateral ← unwrap (get_elem? o.deposits collateral_index)
  if withdraw_amount == collateral.deposited_amount
      then ok (
        record o { deposits = set_at o.deposits collateral_index (new_collateral default_key) },
        full,
      )
      else do
        left ← withdraw_collateral collateral withdraw_amount
        ok (record o { deposits = set_at o.deposits collateral_index left }, partial)

module _ ⦃n : Numerics⦄ where
  -- `ObligationLiquidity::repay` and `borrow`
  unfoldable pub repay_liquidity : ObligationLiquidity → ℕ → Outcome ObligationLiquidity
  repay_liquidity l settle_amount = do
    rest ← n.sub l.borrowed_amount_sf settle_amount
    ok (record l { borrowed_amount_sf = rest })

  unfoldable pub borrow_liquidity : ObligationLiquidity → ℕ → ℕ → Outcome ObligationLiquidity
  borrow_liquidity l borrow_amount current_timestamp = do
    total ← n.add l.borrowed_amount_sf borrow_amount
    ok (record l { borrowed_amount_sf = total; last_borrowed_at_timestamp = current_timestamp })

  -- `Obligation::repay`
  unfoldable pub repay : Obligation → ℕ → ℕ → Outcome Obligation
  unfolding repay_liquidity
  repay o settle_amount liquidity_index = do
    liquidity ← unwrap (get_elem? o.borrows liquidity_index)
    if settle_amount == liquidity.borrowed_amount_sf
        then ok
            (record o { borrows = set_at o.borrows liquidity_index (new_liquidity default_key 0) })
        else do
          left ← repay_liquidity liquidity settle_amount
          ok (record o { borrows = set_at o.borrows liquidity_index left })
