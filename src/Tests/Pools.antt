-- ===== src/Tests/Pools.antt =====
-- The operations of a reserve.
use solana_auditor_skill.Prelude.{◌+◌, ◌*◌, ◌≤◌, ◌<◌, ◌≡◌, true, false, arith, ltb, if◌then◌else◌}
use solana_auditor_skill.Outcome.{ok, err}
use solana_auditor_skill.Errors.{insufficient_liquidity}
use solana_auditor_skill.Numerics.{one}
use solana_auditor_skill.Numerics.Exact.{exact, exact-IsDocumented}
use solana_auditor_skill.Reserve.Types.{ReserveLiquidity, CalculateRepayResult}
use solana_auditor_skill.Reserve.Queries.{compute_depositable_amount_and_minted_collateral}
use solana_auditor_skill.Reserve.Liquidity.{repay, accumulate_early_repay_penalty}
use solana_auditor_skill.Reserve.Liquidity.Supply.{
  IsSolvent, supply, accumulate_early_repay_penalty-supply,
}
use solana_auditor_skill.Reserve.Operations.{
  deposit_liquidity, redeem_collateral, withdraw_liquidity, take_available,
}
use solana_auditor_skill.Reserve.Operations.Rate.{
  IsOpen, IsNoDearer, value, minted, taken, deposited, deposit-IsNoDearer,
}
use solana_auditor_skill.Reserve.Operations.Redeem.{
  redeemed, after_redeem, withdrawable, deposit-redeem, redeem_collateral-IsNoDearer,
  redeem_collateral-refused, withdraw_liquidity_outcome,
}
use solana_auditor_skill.Reserve.Borrow.{calculate_repay}
use solana_auditor_skill.Reserve.Borrow.Repay.{calculate_repay-covers, repay-settles}
use solana_auditor_skill.Tests.Samples.{pool, pool_liquidity}

pool-IsOpen : IsOpen pool
pool-IsOpen = record {
  solvent = record {
    available_fits = omega arith;
    borrowed_fits = omega arith;
    covered = omega arith;
  };
  rated = record {
    supply_pos = omega arith;
    supply_fits = omega arith;
    liquidity_pos = omega arith;
    liquidity_fits = omega arith;
  };
}

deposit-redeem_example :
    (deposit_liquidity pool (taken pool 1_000) (minted pool 1_000) ≡ ok (deposited pool 1_000))
    × (redeem_collateral ⦃n = exact⦄ (deposited pool 1_000) (minted pool 1_000) false ≡ (
        if ltb
          (withdrawable false (deposited pool 1_000))
          (redeemed (deposited pool 1_000) (minted pool 1_000))
        then err insufficient_liquidity
        else ok (
          after_redeem (deposited pool 1_000) (minted pool 1_000),
          redeemed (deposited pool 1_000) (minted pool 1_000),
        )))
    × (redeemed (deposited pool 1_000) (minted pool 1_000)
        ≤ withdrawable true (deposited pool 1_000))
    × (redeemed (deposited pool 1_000) (minted pool 1_000) ≤ taken pool 1_000)
    × (taken pool 1_000 ≤ 1_000)
deposit-redeem_example =
    deposit-redeem ⦃n = exact⦄ exact-IsDocumented pool pool-IsOpen false 1_000 (omega arith)
      (omega arith) (omega arith) (omega arith) (omega arith)

deposit-IsNoDearer_example :
    (compute_depositable_amount_and_minted_collateral ⦃n = exact⦄ pool 1_000
      ≡ ok (record { liquidity_amount = taken pool 1_000; collateral_amount = minted pool 1_000 }))
    × (deposit_liquidity pool (taken pool 1_000) (minted pool 1_000) ≡ ok (deposited pool 1_000))
    × (taken pool 1_000 ≤ 1_000)
    × (value (deposited pool 1_000) ≡ value pool + taken pool 1_000 * one)
    × IsNoDearer pool (deposited pool 1_000)
    × IsOpen (deposited pool 1_000)
deposit-IsNoDearer_example =
    deposit-IsNoDearer ⦃n = exact⦄ exact-IsDocumented pool pool-IsOpen 1_000 (omega arith)
      (omega arith) (omega arith) (omega arith)

redeem_collateral-IsNoDearer_example :
    (redeem_collateral ⦃n = exact⦄ pool 777 false ≡ ok (after_redeem pool 777, redeemed pool 777))
    × (value (after_redeem pool 777) + redeemed pool 777 * one ≡ value pool)
    × IsNoDearer pool (after_redeem pool 777)
    × IsSolvent (after_redeem pool 777).liquidity
redeem_collateral-IsNoDearer_example =
    redeem_collateral-IsNoDearer ⦃n = exact⦄ exact-IsDocumented pool pool-IsOpen false 777
      (omega arith) (omega arith) (omega arith)

redeem_collateral-refused_example :
    redeem_collateral ⦃n = exact⦄ pool 1_100_000 false ≡ err insufficient_liquidity
redeem_collateral-refused_example =
    redeem_collateral-refused ⦃n = exact⦄ exact-IsDocumented pool pool-IsOpen false 1_100_000
      (omega arith) (omega arith) (omega arith)

withdraw_liquidity_outcome_example :
    withdraw_liquidity ⦃n = exact⦄ false pool 900_000 ≡ ok (take_available pool 900_000)
withdraw_liquidity_outcome_example =
    withdraw_liquidity_outcome ⦃n = exact⦄ exact-IsDocumented pool pool-IsOpen false 900_000
      (omega arith)

repay-settles_example :
    (result : CalculateRepayResult) × (l' : ReserveLiquidity) × (calculate_repay ⦃n = exact⦄ 300
        (200 * one + 5)
      ≡ ok result)
    × (repay ⦃n = exact⦄ pool_liquidity result.repay_amount result.settle_amount ≡ ok l')
    × IsSolvent l'
    × (l'.borrowed_amount_sf + (200 * one + 5) ≡ 500_000 * one)
    × (supply pool_liquidity ≤ supply l')
    × (supply l' < supply pool_liquidity + one)
repay-settles_example =
    repay-settles ⦃n = exact⦄ exact-IsDocumented pool_liquidity 300 (200 * one + 5)
      pool-IsOpen.solvent (omega arith) (omega arith) (omega arith)

calculate_repay-covers_example :
    (result : CalculateRepayResult) × (calculate_repay ⦃n = exact⦄ 300 (200 * one + 5) ≡ ok result)
    × (result.settle_amount ≡ 200 * one + 5)
    × (result.settle_amount ≤ 200 * one + 5)
    × (result.settle_amount ≤ result.repay_amount * one)
    × (result.repay_amount * one < result.settle_amount + one)
calculate_repay-covers_example =
    calculate_repay-covers ⦃n = exact⦄ exact-IsDocumented 300 (200 * one + 5) (omega arith)
      (omega arith)

accumulate_early_repay_penalty-supply_example :
    (l' : ReserveLiquidity) × (accumulate_early_repay_penalty ⦃n = exact⦄ pool_liquidity 12 ≡ ok l')
    × IsSolvent l'
    × (supply l' ≡ supply pool_liquidity)
    × (l'.accumulated_protocol_fees_sf ≡ 19 * one)
accumulate_early_repay_penalty-supply_example =
    accumulate_early_repay_penalty-supply ⦃n = exact⦄ exact-IsDocumented pool_liquidity 12
      pool-IsOpen.solvent (omega arith)
