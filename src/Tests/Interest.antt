-- ===== src/Tests/Interest.antt =====
-- Interest, rewards and fees.
use solana_auditor_skill.Prelude.{ℕ, ◌+◌, ◌*◌, ◌/◌, ◌≤◌, ◌≡◌, true, arith}
use solana_auditor_skill.Outcome.{ok}
use solana_auditor_skill.Numerics.{one}
use solana_auditor_skill.Numerics.Exact.{exact, exact-IsDocumented}
use solana_auditor_skill.Reserve.Types.{Reserve, ReserveLiquidity, inclusive}
use solana_auditor_skill.Reserve.Liquidity.Supply.{IsSolvent, supply, fees_owed}
use solana_auditor_skill.Reserve.Interest.{
  slots_per_year, approximate_compounded_interest, compound_interest, distribute_rewards,
}
use solana_auditor_skill.Reserve.Interest.Series.{compounded, approximate_compounded_interest_lem}
use solana_auditor_skill.Reserve.Interest.Accrual.{IsModest, compound_interest-shares}
use solana_auditor_skill.Reserve.Interest.Rewards.{distribute_rewards-moves}
use solana_auditor_skill.Reserve.Fees.{calculate_fees}
use solana_auditor_skill.Reserve.Fees.Shares.{fee_of, nearest, calculate_fees-shares}
use solana_auditor_skill.Tests.Samples.{pool, pool_liquidity}

pool-IsSolvent : IsSolvent pool_liquidity
pool-IsSolvent = record {
  available_fits = omega arith;
  borrowed_fits = omega arith;
  covered = omega arith;
}

-- 12% a year and 0.5% for the host, for a day; a tenth to the protocol, a fifth of that to referrers.
day-IsModest : IsModest pool_liquidity (one * 12 / 100) (one / 200) 172_800 (one / 10) (one / 5)
day-IsModest = record {
  rates = omega arith;
  slots = omega arith;
  take_share = omega arith;
  referral_share = omega arith;
  debt = omega arith;
  cumulative = omega arith;
}

compound_interest-shares_example :
    (l' : ReserveLiquidity) × (compound_interest ⦃n = exact⦄ pool_liquidity
        (one * 12 / 100)
        (one / 200)
        172_800
        (one / 10)
        (one / 5)
      ≡ ok l')
    × IsSolvent l'
    × (supply pool_liquidity ≤ supply l')
    × (fees_owed pool_liquidity ≤ fees_owed l')
    × (supply l' + fees_owed l' + pool_liquidity.borrowed_amount_sf
        ≡ supply pool_liquidity + fees_owed pool_liquidity + l'.borrowed_amount_sf)
    × (pool_liquidity.cumulative_borrow_rate_bsf ≤ l'.cumulative_borrow_rate_bsf)
compound_interest-shares_example =
    compound_interest-shares pool_liquidity pool-IsSolvent (one * 12 / 100) (one / 200) 172_800
      (one / 10) (one / 5) day-IsModest ⦃n = exact⦄ exact-IsDocumented

approximate_compounded_interest_lem_example :
    approximate_compounded_interest ⦃n = exact⦄ (one * 12 / 100) 172_800
    ≡ ok (compounded (one * 12 / 100 / slots_per_year) 172_800)
approximate_compounded_interest_lem_example =
    approximate_compounded_interest_lem ⦃n = exact⦄ exact-IsDocumented (one * 12 / 100) 172_800
      (omega arith) (omega arith)

distribute_rewards-moves_example :
    (r' : Reserve) × (amount : ℕ) × (distribute_rewards ⦃n = exact⦄ pool 1_004_000 800
      ≡ ok (r', amount))
    × (supply r'.liquidity ≡ supply pool_liquidity + amount * one)
    × (r'.liquidity.rewards_amount_available + amount ≡ 9_000)
    × (amount ≤ 3 * 1_000_000)
    × IsSolvent r'.liquidity
distribute_rewards-moves_example =
    distribute_rewards-moves ⦃n = exact⦄ exact-IsDocumented pool 1_004_000 800 pool-IsSolvent
      (omega arith) (omega arith)

calculate_fees-shares_example :
    (protocol referrer : ℕ) × (calculate_fees ⦃n = exact⦄
        (5_000 * one)
        (one / 100)
        inclusive
        2_000
        true
      ≡ ok (protocol, referrer))
    × (protocol + referrer ≡ nearest (fee_of (5_000 * one) (one / 100) inclusive))
    × (referrer * 10_000 * one ≤ fee_of (5_000 * one) (one / 100) inclusive * 2_000 + one * 10_000)
calculate_fees-shares_example =
    calculate_fees-shares ⦃n = exact⦄ exact-IsDocumented (5_000 * one) (one / 100) inclusive 2_000
      true (omega arith) (omega arith) (omega arith) (omega arith)
