-- ===== src/Lending/Balances.antt =====
-- The checks after a transfer of tokens that the vaults and the accounts agree (`post_*_checks` of
-- klend/programs/klend/src/lending_market/lending_checks.rs).
pub mod Moved
use solana_auditor_skill.Prelude.{ℕ, ◌+◌, ◌-◌, ◌==◌, Bool, ◌&&◌, leb}
use solana_auditor_skill.Prelude.Int.{ℤ, pos, negsuc, sub_ℕ, leb_ℤ}
use solana_auditor_skill.Outcome.{Outcome, ok, ◌>>=◌, ◌>>◌, require, fit, unwrap, checked_sub}
use solana_auditor_skill.Errors.{
  reserve_token_balance_mismatch, reserve_vault_balance_mismatch, reserve_accounting_mismatch,
  user_token_balance_mismatch,
}

-- The amount that a transfer adds to a vault, or takes out of it.
pub data LendingAction : Type 0 where
  additive subtractive : ℕ → LendingAction

abbrev pub subtractive_signed : ℤ → LendingAction
subtractive_signed (pos n) = subtractive n
subtractive_signed (negsuc n) = additive (n + 1)

-- `+` and `-` on `u64`.
abbrev pub moved_by : LendingAction → ℕ → Outcome ℕ
moved_by (additive amount) before = fit 64 (before + amount)
moved_by (subtractive amount) before = unwrap (checked_sub before amount)

-- The vault's balance and what is on the books both moved by the amount.
unfoldable pub check_moved :
    LendingAction → (vault_before vault_after booked_before booked_after : ℕ) → Outcome (Unit {0})
check_moved action vault_before vault_after booked_before booked_after = do
  expected_vault ← moved_by action vault_before
  require (expected_vault == vault_after) reserve_vault_balance_mismatch
  expected_booked ← moved_by action booked_before
  require (expected_booked == booked_after) reserve_accounting_mismatch

unfoldable pub post_transfer_vault_balance_liquidity_reserve_checks :
    (final_reserve_vault_balance final_reserve_available_liquidity : ℕ)
    (initial_reserve_vault_balance initial_reserve_available_liquidity : ℕ)
    → LendingAction
    → Outcome (Unit {0})
unfolding check_moved
post_transfer_vault_balance_liquidity_reserve_checks fv fa iv ia action = do
  pre_transfer_reserve_diff ← unwrap (checked_sub iv ia)
  post_transfer_reserve_diff ← unwrap (checked_sub fv fa)
  require (pre_transfer_reserve_diff == post_transfer_reserve_diff) reserve_token_balance_mismatch
  check_moved action iv fv ia fa

-- `==` on `i128`.
abbrev pub same_diff : ℤ → ℤ → Bool
same_diff x y = leb_ℤ x y && leb_ℤ y x

-- A vault of queued collateral may hold less than is queued: the differences have a sign.
unfoldable pub post_transfer_owner_queued_collateral_vault_balance_checks :
    (final_owner_queued_collateral_vault_balance final_queued_collateral : ℕ)
    (initial_owner_queued_collateral_vault_balance initial_queued_collateral : ℕ)
    → LendingAction
    → Outcome (Unit {0})
unfolding check_moved
post_transfer_owner_queued_collateral_vault_balance_checks fv fq iv iq action = do
  require (same_diff (sub_ℕ iv iq) (sub_ℕ fv fq)) reserve_token_balance_mismatch
  check_moved action iv fv iq fq

unfoldable pub post_transfer_vault_balance_rewards_deposit_checks :
    (initial_reserve_vault_balance final_reserve_vault_balance : ℕ)
    (initial_rewards_amount_available final_rewards_amount_available : ℕ)
    (initial_total_available_amount final_total_available_amount amount_transferred : ℕ)
    → Outcome (Unit {0})
post_transfer_vault_balance_rewards_deposit_checks iv fv ir fr ia fa amount = do
  vault ← fit 64 (iv + amount)
  require (vault == fv) reserve_vault_balance_mismatch
  rewards ← fit 64 (ir + amount)
  require (rewards == fr) reserve_accounting_mismatch
  require (ia == fa) reserve_accounting_mismatch

unfoldable pub post_ticket_collateral_recovery_owner_queued_collateral_vault_balance_checks :
    (final_owner_queued_collateral_vault_balance final_user_source_collateral_balance : ℕ)
    (initial_owner_queued_collateral_vault_balance initial_user_source_collateral_balance : ℕ)
    (amount_transferred_from_vault_to_user : ℕ)
    → Outcome (Unit {0})
post_ticket_collateral_recovery_owner_queued_collateral_vault_balance_checks fv fu iv iu amount = do
  vault ← unwrap (checked_sub iv amount)
  require (vault == fv) reserve_vault_balance_mismatch
  user ← fit 64 (iu + amount)
  require (user == fu) user_token_balance_mismatch

unfoldable pub post_cancel_withdraw_ticket_balance_checks :
    (final_owner_queued_collateral_vault_balance final_user_destination_collateral_balance : ℕ)
    (final_queued_collateral : ℕ)
    (initial_owner_queued_collateral_vault_balance initial_user_destination_collateral_balance : ℕ)
    (initial_queued_collateral amount_transferred : ℕ)
    → Outcome (Unit {0})
post_cancel_withdraw_ticket_balance_checks fv fu fq iv iu iq amount = do
  vault ← unwrap (checked_sub iv amount)
  require (vault == fv) reserve_vault_balance_mismatch
  user ← fit 64 (iu + amount)
  require (user == fu) user_token_balance_mismatch
  queued ← unwrap (checked_sub iq amount)
  require (queued == fq) reserve_accounting_mismatch
