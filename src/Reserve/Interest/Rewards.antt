-- ===== src/Reserve/Interest/Rewards.antt =====
-- Where the rewards go.
use solana_auditor_skill.Prelude.{
  ℕ, ◌+◌, ◌-◌, ◌*◌, ◌^◌, ◌/◌, ◌≤◌, ◌<◌, ◌≡◌, Bool, ◌||◌, arith, min, ◌==◌, if◌then◌else◌,
}
use solana_auditor_skill.Outcome.{ok}
use solana_auditor_skill.Numerics.{Numerics, IsDocumented, one}
use solana_auditor_skill.Numerics.Exact.{exact, exact_unique, exact-IsDocumented}
use solana_auditor_skill.Fraction.{to_floor}
use solana_auditor_skill.LastUpdate.{slots_elapsed}
use solana_auditor_skill.Reserve.Types.{Reserve}
use solana_auditor_skill.Reserve.Liquidity.Supply.{IsSolvent, supply, total_supply_lem}
use solana_auditor_skill.Reserve.Interest.{distribute_rewards, saturating_mul, apr_cap}

abbrev idle : Reserve → ℕ → ℕ → Bool
idle r elapsed max_apr_bps =
    elapsed == 0
    || max_apr_bps == 0
    || r.config.rewards_amount_per_slot == 0
    || r.liquidity.rewards_amount_available == 0
    || r.collateral.mint_total_supply == 0

-- The rewards of so many slots: by the rate per slot, at most the capped yearly rate of the supply, and
-- at most what is left of them.
abbrev pub reward_of : Reserve → ℕ → ℕ → ℕ
reward_of r elapsed max_apr_bps =
    if idle r elapsed max_apr_bps
    then 0
    else min
        (min (saturating_mul 128 r.config.rewards_amount_per_slot elapsed)
          (apr_cap (supply r.liquidity / one) max_apr_bps elapsed))
        r.liquidity.rewards_amount_available

abbrev pub rewarded : Reserve → ℕ → Reserve
rewarded r amount = record r {
  liquidity = record r.liquidity {
    rewards_amount_available = r.liquidity.rewards_amount_available - amount;
    total_available_amount = r.liquidity.total_available_amount + amount;
  };
}

-- A distribution of rewards in a solvent reserve, at a slot that is not before the last update and
-- with totals that fit, succeeds and moves an amount from the rewards into the supply, none lost
-- and none made: no more than the configured amount per slot, and the reserve stays solvent.
pub distribute_rewards-moves :
    ⦃n : Numerics⦄ (d : IsDocumented n) (r : Reserve) (current_slot max_apr_bps : ℕ)
    → IsSolvent r.liquidity
    → r.last_update.slot ≤ current_slot
    → r.liquidity.total_available_amount + r.liquidity.rewards_amount_available < 2 ^ 64
    → (r' : Reserve) × (amount : ℕ) × (distribute_rewards r current_slot max_apr_bps
        ≡ ok (r', amount))
      × (supply r'.liquidity ≡ supply r.liquidity + amount * one)
      × (r'.liquidity.rewards_amount_available + amount ≡ r.liquidity.rewards_amount_available)
      × (amount ≤ r.config.rewards_amount_per_slot * (current_slot - r.last_update.slot))
      × IsSolvent r'.liquidity
unfolding distribute_rewards slots_elapsed to_floor
distribute_rewards-moves d r current_slot max_apr_bps s since room =
    let amount = reward_of r (current_slot - r.last_update.slot) max_apr_bps in
    let few : amount ≤ r.liquidity.rewards_amount_available = ground arith in
    (
      rewarded r amount,
      amount,
      rw (exact_unique _ d, total_supply_lem ⦃n = exact⦄ exact-IsDocumented r.liquidity s)
          (ground arith),
      omega (arith, s.covered),
      omega arith,
      ground arith,
      record {
        available_fits = omega arith;
        borrowed_fits = s.borrowed_fits;
        covered = omega (arith, s.covered);
      },
    )
