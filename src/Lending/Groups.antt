-- ===== src/Lending/Groups.antt =====
-- How much was borrowed against each collateral in an elevation group, and outside of groups
-- (`update_elevation_group_debt_trackers_*` of
-- klend/programs/klend/src/lending_market/lending_operations.rs). The accounts of the deposits' reserves
-- come in the order of the active deposits, each with its key; an account that the instruction has
-- loaded already, as it has the reserve of the operation, cannot be loaded again and is not among them.
use solana_auditor_skill.Prelude.{
  ℕ, ◌+◌, ◌-◌, ◌==◌, Bool, false, ltb, leb, Option, some, none, if◌then◌else◌, List, [], ◌∷◌,
  get_elem?, set_at,
}
use solana_auditor_skill.Outcome.{
  Outcome, ok, err, ◌>>=◌, ◌>>◌, refuse_if, require, unwrap, ok_or, fit, checked_add, check_account,
}
use solana_auditor_skill.Errors.{
  invalid_account_input, elevation_group_borrow_limit_exceeded, math_overflow,
  borrow_limit_exceeded, elevation_group_has_another_debt_reserve,
  elevation_group_debt_reserve_as_collateral, obligation_collateral_exceeds_elevation_group_limit,
  obligation_elevation_group_multiple_debt_reserve,
}
use solana_auditor_skill.Reserve.Types.{Reserve, Pubkey}
use solana_auditor_skill.Obligation.Types.{
  Obligation, ObligationCollateral, ObligationLiquidity, elevation_group_none,
}
use solana_auditor_skill.Obligation.Queries.{is_active_collateral}
use solana_auditor_skill.Market.{ElevationGroup, get_index}

abbrev pub Accounts : Type 0
Accounts = List (Pubkey × Reserve)

-- What the reserve has lent in the group of this index; past the table's end the program panics.
abbrev pub lent_in_group : Reserve → ℕ → Outcome ℕ
lent_in_group r index =
    unwrap (get_elem? r.borrowed_amounts_against_this_reserve_in_elevation_groups index)

abbrev pub with_lent_in_group : Reserve → ℕ → ℕ → Reserve
with_lent_in_group r index amount = record r {
  borrowed_amounts_against_this_reserve_in_elevation_groups =
      set_at r.borrowed_amounts_against_this_reserve_in_elevation_groups index amount;
}

abbrev pub with_tracked : ObligationCollateral → ℕ → ObligationCollateral
with_tracked c amount = record c {
  borrowed_amount_against_this_collateral_in_elevation_group = amount;
}

-- One deposit and the account of its reserve, on a borrow in the group.
unfoldable pub track_borrow :
    (amount index : ℕ)
    → ObligationCollateral
    → Pubkey × Reserve
    → Outcome (ObligationCollateral × (Pubkey × Reserve))
track_borrow amount index c (key, r) = do
  check_account (key == c.deposit_reserve)
  limit ← unwrap (get_elem? r.config.borrow_limit_against_this_collateral_in_elevation_group index)
  previous ← lent_in_group r index
  lent ← ok_or (checked_add 64 previous amount) elevation_group_borrow_limit_exceeded
  require (leb lent limit) elevation_group_borrow_limit_exceeded
  tracked ← fit 64 (c.borrowed_amount_against_this_collateral_in_elevation_group + amount)
  ok (with_tracked c tracked, (key, with_lent_in_group r index lent))

-- The same on a repayment.
unfoldable pub track_repay :
    (amount index : ℕ)
    → ObligationCollateral
    → Pubkey × Reserve
    → Outcome (ObligationCollateral × (Pubkey × Reserve))
track_repay amount index c (key, r) = do
  check_account (key == c.deposit_reserve)
  limit ← unwrap (get_elem? r.config.borrow_limit_against_this_collateral_in_elevation_group index)
  previous ← lent_in_group r index
  ok (
    with_tracked c (c.borrowed_amount_against_this_collateral_in_elevation_group - amount),
    (key, with_lent_in_group r index (previous - amount)),
  )

-- A step for every active deposit with the next account; accounts that are left over stay as they are.
unfoldable pub for_active :
    (ObligationCollateral → Pubkey × Reserve → Outcome (ObligationCollateral × (Pubkey × Reserve)))
    → List ObligationCollateral
    → Accounts
    → Outcome (List ObligationCollateral × Accounts)
for_active step [] accounts = ok ([], accounts)
for_active step (c ∷ cs) [] =
    if is_active_collateral c
    then err invalid_account_input
    else (for_active step cs [] >>= λ rest. ok (c ∷ rest.0, rest.1))
for_active step (c ∷ cs) (a ∷ accounts) =
    if is_active_collateral c
    then (step c a >>= λ done.
        for_active step cs accounts >>= λ rest. ok (done.0 ∷ rest.0, done.1 ∷ rest.1))
    else (for_active step cs (a ∷ accounts) >>= λ rest. ok (c ∷ rest.0, rest.1))

-- The state of an operation on a borrow: the obligation, the reserve of the borrow, and the accounts of
-- the deposits' reserves.
pub record BorrowState : Type 0 where
  pub obligation : Obligation
  pub reserve : Reserve
  pub accounts : Accounts

abbrev pub with_outside : ObligationLiquidity → ℕ → ObligationLiquidity
with_outside l amount = record l { borrowed_amount_outside_elevation_groups = amount }

unfoldable pub update_trackers_on_borrow :
    (amount : ℕ)
    → BorrowState
    → (borrow_index : ℕ) → Option ElevationGroup
    → Pubkey
    → Outcome BorrowState
unfolding for_active track_borrow
update_trackers_on_borrow amount s borrow_index (some g) key = do
  index ← get_index g
  require (g.debt_reserve == key) elevation_group_has_another_debt_reserve
  tracked ← for_active (track_borrow amount index) s.obligation.deposits s.accounts
  ok (record s { obligation = record s.obligation { deposits = tracked.0 }; accounts = tracked.1 })
update_trackers_on_borrow amount s borrow_index none key = do
  total ←
      ok_or (checked_add 64 s.reserve.borrowed_amount_outside_elevation_group amount) math_overflow
  require (leb total s.reserve.config.borrow_limit_outside_elevation_group) borrow_limit_exceeded
  slot ← unwrap (get_elem? s.obligation.borrows borrow_index)
  outside ← fit 64 (slot.borrowed_amount_outside_elevation_groups + amount)
  ok (record s {
    reserve = record s.reserve { borrowed_amount_outside_elevation_group = total };
    obligation = record s.obligation {
      borrows = set_at s.obligation.borrows borrow_index (with_outside slot outside);
    };
  })

unfoldable pub update_trackers_on_repay :
    (amount : ℕ) → BorrowState → (borrow_index : ℕ) → Outcome BorrowState
unfolding for_active track_repay
update_trackers_on_repay amount s borrow_index =
    if s.obligation.elevation_group == elevation_group_none
    then (unwrap (get_elem? s.obligation.borrows borrow_index) >>= λ slot. ok (record s {
      reserve = record s.reserve {
        borrowed_amount_outside_elevation_group =
            s.reserve.borrowed_amount_outside_elevation_group - amount;
      };
      obligation = record s.obligation {
        borrows =
            set_at s.obligation.borrows borrow_index
              (with_outside slot (slot.borrowed_amount_outside_elevation_groups - amount));
      };
    }))
    else (for_active (track_repay amount (s.obligation.elevation_group - 1)) s.obligation.deposits
          s.accounts
        >>= λ tracked. ok (record s {
          obligation = record s.obligation { deposits = tracked.0 };
          accounts = tracked.1;
        }))

pub data MaxReservesAsCollateralCheck : Type 0 where
  perform skip : MaxReservesAsCollateralCheck

abbrev pub too_many_collaterals : MaxReservesAsCollateralCheck → ElevationGroup → ℕ → Bool
too_many_collaterals perform g pre_deposit_count =
    ltb g.max_reserves_as_collateral (pre_deposit_count + 1)
too_many_collaterals skip g pre_deposit_count = false

unfoldable pub update_trackers_on_new_deposit :
    (total_borrowed : Option ℕ)
    → ObligationCollateral
    → (pre_deposit_count : ℕ) → Option ElevationGroup
    → Pubkey
    → Reserve
    → MaxReservesAsCollateralCheck
    → Outcome (ObligationCollateral × Reserve)
update_trackers_on_new_deposit total_borrowed c pre_deposit_count none key r check = ok (c, r)
update_trackers_on_new_deposit total_borrowed c pre_deposit_count (some g) key r check = do
  refuse_if (g.debt_reserve == key) elevation_group_debt_reserve_as_collateral
  refuse_if (too_many_collaterals check g pre_deposit_count)
      obligation_collateral_exceeds_elevation_group_limit
  index ← get_index g
  borrowed ← ok_or total_borrowed obligation_elevation_group_multiple_debt_reserve
  previous ← lent_in_group r index
  lent ← fit 64 (previous + borrowed)
  ok (with_tracked c borrowed, with_lent_in_group r index lent)

unfoldable pub update_trackers_on_full_withdraw :
    (previous_debt elevation_group_id : ℕ) → Reserve → Outcome Reserve
update_trackers_on_full_withdraw previous_debt elevation_group_id r =
    if elevation_group_id == elevation_group_none then ok r else do
      previous ← lent_in_group r (elevation_group_id - 1)
      ok (with_lent_in_group r (elevation_group_id - 1) (previous - previous_debt))
