-- ===== src/Lending/Balances/Moved.antt =====
-- What the checks after a transfer accept.
use solana_auditor_skill.Prelude.{ℕ, ◌+◌, ◌^◌, ◌≤◌, ◌<◌, ◌≡◌, ◌↔◌, arith}
use solana_auditor_skill.Outcome.{ok}
use solana_auditor_skill.Lending.Balances.{
  LendingAction, additive, subtractive, check_moved,
  post_transfer_vault_balance_liquidity_reserve_checks,
  post_transfer_owner_queued_collateral_vault_balance_checks,
}

-- A balance before and after.
abbrev pub IsMoved : LendingAction → (before after : ℕ) → Type 0
IsMoved (additive amount) before after = after ≡ before + amount
IsMoved (subtractive amount) before after = before ≡ after + amount

post_transfer_vault_checks_iff :
    (fv fa iv ia : ℕ) (action : LendingAction)
    → fv < 2 ^ 64
    → fa < 2 ^ 64
    → (post_transfer_vault_balance_liquidity_reserve_checks fv fa iv ia action ≡ ok tt)
      ↔ ((ia ≤ iv) × IsMoved action iv fv × IsMoved action ia fa)
unfolding post_transfer_vault_balance_liquidity_reserve_checks check_moved
post_transfer_vault_checks_iff fv fa iv ia (additive amount) fits_vault fits_booked =
    (λ e. ground arith, λ (covered, vault, booked). ground arith)
post_transfer_vault_checks_iff fv fa iv ia (subtractive amount) fits_vault fits_booked =
    (λ e. ground arith, λ (covered, vault, booked). ground arith)

post_transfer_owner_queued_checks_iff :
    (fv fq iv iq : ℕ) (action : LendingAction)
    → fv < 2 ^ 64
    → fq < 2 ^ 64
    → (post_transfer_owner_queued_collateral_vault_balance_checks fv fq iv iq action ≡ ok tt)
      ↔ (IsMoved action iv fv × IsMoved action iq fq)
unfolding post_transfer_owner_queued_collateral_vault_balance_checks check_moved
post_transfer_owner_queued_checks_iff fv fq iv iq (additive amount) fits_vault fits_queued =
    (λ e. ground arith, λ (vault, queued). ground arith)
post_transfer_owner_queued_checks_iff fv fq iv iq (subtractive amount) fits_vault fits_queued =
    (λ e. ground arith, λ (vault, queued). ground arith)

-- For a transfer whose balances afterwards are `u64`s, the checks of a vault of liquidity pass
-- exactly where the vault held at least what was on the books, and the vault and the books both
-- moved by the amount transferred, in its direction; those of a vault of queued collateral pass
-- exactly where both moved so, whatever was in the vault.
pub post_transfer_checks_iff :
    (vault_after booked_after vault_before booked_before : ℕ) (action : LendingAction)
    → vault_after < 2 ^ 64
    → booked_after < 2 ^ 64
    → ((post_transfer_vault_balance_liquidity_reserve_checks vault_after booked_after vault_before
            booked_before action
          ≡ ok tt)
        ↔ ((booked_before ≤ vault_before)
            × IsMoved action vault_before vault_after
            × IsMoved action booked_before booked_after))
      × ((post_transfer_owner_queued_collateral_vault_balance_checks vault_after booked_after
              vault_before booked_before action
            ≡ ok tt)
          ↔ (IsMoved action vault_before vault_after × IsMoved action booked_before booked_after))
post_transfer_checks_iff fv fa iv ia action fits_vault fits_booked = (
  post_transfer_vault_checks_iff fv fa iv ia action fits_vault fits_booked,
  post_transfer_owner_queued_checks_iff fv fa iv ia action fits_vault fits_booked,
)
