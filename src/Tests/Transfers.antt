-- ===== src/Tests/Transfers.antt =====
-- A transfer of 200 tokens into a vault.
use solana_auditor_skill.Prelude.{◌≤◌, ◌≡◌, ◌↔◌, arith}
use solana_auditor_skill.Outcome.{ok}
use solana_auditor_skill.Lending.Balances.{
  additive, post_transfer_vault_balance_liquidity_reserve_checks,
  post_transfer_owner_queued_collateral_vault_balance_checks,
}
use solana_auditor_skill.Lending.Balances.Moved.{IsMoved, post_transfer_checks_iff}

post_transfer_checks_iff_example :
    ((post_transfer_vault_balance_liquidity_reserve_checks 1_200 1_100 1_000 900 (additive 200)
        ≡ ok tt)
      ↔ ((900 ≤ 1_000) × IsMoved (additive 200) 1_000 1_200 × IsMoved (additive 200) 900 1_100))
    × ((post_transfer_owner_queued_collateral_vault_balance_checks 1_200 1_100 1_000 900
            (additive 200)
          ≡ ok tt)
        ↔ (IsMoved (additive 200) 1_000 1_200 × IsMoved (additive 200) 900 1_100))
post_transfer_checks_iff_example =
    post_transfer_checks_iff 1_200 1_100 1_000 900 (additive 200) (omega arith) (omega arith)
