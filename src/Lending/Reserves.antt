-- ===== src/Lending/Reserves.antt =====
-- The operations on a reserve alone: `refresh_reserve`, `deposit_reserve_liquidity` and `redeem_fees` of
-- klend/programs/klend/src/lending_market/lending_operations.rs. The price is what the oracles gave, if
-- they gave one: reading them is not modelled.
pub mod Fresh
use solana_auditor_skill.Prelude.{
  ℕ, ◌+◌, ◌-◌, ◌*◌, ◌/◌, ◌^◌, ◌==◌, Bool, true, false, not, ltb, leb, Option, some, none,
  if◌then◌else◌,
}
use solana_auditor_skill.Outcome.{Outcome, ok, err, panic, ◌>>=◌, ◌>>◌, refuse_if, fit}
use solana_auditor_skill.Errors.{invalid_amount, reserve_stale, deposit_limit_exceeded}
use solana_auditor_skill.Numerics.{Numerics}
use solana_auditor_skill.LastUpdate.{PriceStatusFlags, update_slot, no_checks}
use solana_auditor_skill.WithdrawalCaps.{sub_from_withdrawal_accum}
use solana_auditor_skill.Reserve.Types.{Reserve, DepositLiquidityResult}
use solana_auditor_skill.Reserve.Liquidity.{total_supply}
use solana_auditor_skill.Reserve.Queries.{compute_depositable_amount_and_minted_collateral}
use solana_auditor_skill.Reserve.Interest.{accrue_interest, distribute_rewards}
use solana_auditor_skill.Reserve.Operations.{deposit_liquidity}
use solana_auditor_skill.Market.{Clock, LendingMarket}
use solana_auditor_skill.Lending.Checks.{refuse_stale}
use solana_auditor_skill.Lending.Collateral.{with_stale_update}

-- Of klend/programs/klend/src/utils/prices/mod.rs.
pub record GetPriceResult : Type 0 where
  pub price : ℕ
  pub status : PriceStatusFlags
  pub timestamp : ℕ

abbrev pub is_saved_price_age_valid : Reserve → ℕ → Bool
is_saved_price_age_valid r current_ts =
    ltb (current_ts - r.liquidity.market_price_last_updated_ts)
      r.config.token_info.max_age_price_seconds

unfoldable pub is_price_refresh_needed : Reserve → LendingMarket → ℕ → Outcome Bool
is_price_refresh_needed r market current_ts = do
  scaled ←
      fit 64
        (r.config.token_info.max_age_price_seconds * market.price_refresh_trigger_to_max_age_pct)
  ok (leb (scaled / 100) (current_ts - r.liquidity.market_price_last_updated_ts))

abbrev pub is_emergency_mode : Reserve → Bool
is_emergency_mode r = not (r.config.emergency_mode == 0)

abbrev pub with_price : Reserve → GetPriceResult → Reserve
with_price r p = record r {
  liquidity = record r.liquidity {
    market_price_sf = p.price;
    market_price_last_updated_ts = p.timestamp;
  };
}

-- The reserve with its price, and the status of the price where that changes.
abbrev pub priced :
    Reserve → (current_ts : ℕ) → Option GetPriceResult → Reserve × Option PriceStatusFlags
priced r current_ts none =
    if is_emergency_mode r
    then (
      record r { liquidity = record r.liquidity { market_price_last_updated_ts = 0 } },
      some no_checks,
    )
    else if is_saved_price_age_valid r current_ts
    then (r, none)
    else (r, some no_checks)
priced r current_ts (some p) =
    if is_emergency_mode r
    then (
      record r { liquidity = record r.liquidity { market_price_last_updated_ts = 0 } },
      some no_checks,
    )
    else (with_price r p, some p.status)

module _ ⦃n : Numerics⦄ where
  unfoldable pub refresh_reserve :
      Reserve
      → Clock
      → Option GetPriceResult
      → (referral_fee_bps rewards_max_apr_bps : ℕ) → Outcome Reserve
  refresh_reserve r clock price referral_fee_bps rewards_max_apr_bps = do
    accrued ← accrue_interest r clock.slot referral_fee_bps
    rewarded ← distribute_rewards accrued clock.slot rewards_max_apr_bps
    let result = priced rewarded.0 clock.unix_timestamp price
    ok (record result.0 { last_update = update_slot result.0.last_update clock.slot result.1 })

  unfoldable pub deposit_reserve_liquidity :
      Reserve → Clock → (liquidity_amount : ℕ) → Outcome (Reserve × DepositLiquidityResult)
  deposit_reserve_liquidity r clock liquidity_amount = do
    refuse_if (liquidity_amount == 0) invalid_amount
    refuse_stale r.last_update clock.slot no_checks reserve_stale
    result ← compute_depositable_amount_and_minted_collateral r liquidity_amount
    amount_f ← n.from_num result.liquidity_amount
    limit ← n.from_num r.config.deposit_limit
    supply ← total_supply r.liquidity
    new_supply ← n.add amount_f supply
    refuse_if (ltb limit new_supply) deposit_limit_exceeded
    cap ←
        sub_from_withdrawal_accum r.config.deposit_withdrawal_cap result.liquidity_amount
          clock.unix_timestamp
    let capped = record r { config = record r.config { deposit_withdrawal_cap = cap } }
    deposited ← deposit_liquidity capped result.liquidity_amount result.collateral_amount
    ok (with_stale_update deposited, result)
