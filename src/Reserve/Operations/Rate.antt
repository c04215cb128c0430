-- ===== src/Reserve/Operations/Rate.antt =====
-- What deposits and redemptions do to the exchange rate of a reserve.
use solana_auditor_skill.Prelude.{ℕ, ◌+◌, ◌*◌, ◌^◌, ◌/◌, ◌≤◌, ◌<◌, ◌≡◌, arith}
use solana_auditor_skill.Prelude.Division.{ceil_div-le, div-lt}
use solana_auditor_skill.Outcome.{ok}
use solana_auditor_skill.Numerics.{Numerics, IsDocumented, one}
use solana_auditor_skill.Reserve.Types.{Reserve}
use solana_auditor_skill.Reserve.Liquidity.{deposit}
use solana_auditor_skill.Reserve.Liquidity.Supply.{IsSolvent, supply, total_supply_lem}
use solana_auditor_skill.Reserve.Collateral.{exchange_rate, mint}
use solana_auditor_skill.Reserve.Collateral.Exchange.{
  IsRate, rate, ceil_liquidity, floor_collateral, floor_collateral_bounds, ceil_liquidity_bounds,
  collateral_to_liquidity_ceil_lem, liquidity_to_collateral_lem, ceil_liquidity-floor_collateral,
}
use solana_auditor_skill.Reserve.Queries.{
  collateral_exchange_rate, compute_depositable_amount_and_minted_collateral,
}
use solana_auditor_skill.Reserve.Operations.{deposit_liquidity}

abbrev pub tokens : Reserve → ℕ
tokens r = r.collateral.mint_total_supply

abbrev pub value : Reserve → ℕ
value r = supply r.liquidity

-- A reserve with depositors: solvent, with tokens and value within the bounds of a rate.
pub record IsOpen (r : Reserve) : Type 0 where
  pub solvent : IsSolvent r.liquidity
  pub rated : IsRate (tokens r) (value r)

-- The tokens that `a` of liquidity buys.
abbrev pub minted : Reserve → ℕ → ℕ
minted r a = floor_collateral (tokens r) (value r) a

-- What the deposit then takes for them.
abbrev pub taken : Reserve → ℕ → ℕ
taken r a = ceil_liquidity (tokens r) (value r) (minted r a)

abbrev pub deposited : Reserve → ℕ → Reserve
deposited r a = record r {
  liquidity = record r.liquidity {
    total_available_amount = r.liquidity.total_available_amount + taken r a;
  };
  collateral = record r.collateral { mint_total_supply = tokens r + minted r a };
}

-- No token of the first is worth more than one of the second.
abbrev pub IsNoDearer : Reserve → Reserve → Type 0
IsNoDearer r r' = value r * tokens r' ≤ value r' * tokens r

-- Taking in at least what the new tokens are worth, and paying out at most what the burnt ones are.
rate-rises : (L S c k L' : ℕ) → L' ≡ L + k * one → c * L ≤ k * (S * one) → L * (S + c) ≤ L' * S
rate-rises L S c k L' h enough = rw h (omega arith)

module _ ⦃n : Numerics⦄ (d : IsDocumented n) (r : Reserve) (o : IsOpen r) where
  pub collateral_exchange_rate_lem : collateral_exchange_rate r ≡ ok (rate (tokens r) (value r))
  unfolding collateral_exchange_rate exchange_rate
  collateral_exchange_rate_lem =
      rw (total_supply_lem d r.liquidity o.solvent)
        (ground (arith, o.rated.supply_pos, o.rated.liquidity_pos))

  -- What a deposit of at most `a` mints and takes.
  pub compute_lem :
      (a : ℕ)
      → a < 2 ^ 64
      → tokens r * a * one < 2 ^ 64 * value r
      → compute_depositable_amount_and_minted_collateral r a
        ≡ ok (record { liquidity_amount = taken r a; collateral_amount = minted r a })
  unfolding compute_depositable_amount_and_minted_collateral
  compute_lem a h fits =
      let S = tokens r in
      let L = value r in
      let c = minted r a in
      let forth = floor_collateral_bounds S L o.rated a in
      let scaled = ceil_div-le (c * L) S (a * one) o.rated.supply_pos (omega (arith, forth.0)) in
      let few : c < 2 ^ 64 =
        div-lt (S * a * one * one / L) one (2 ^ 64) (omega arith)
          (div-lt (S * a * one * one) L (2 ^ 64 * one) o.rated.liquidity_pos (omega arith)) in
      rw
        (
          collateral_exchange_rate_lem,
          liquidity_to_collateral_lem S L o.rated d a h fits,
          collateral_to_liquidity_ceil_lem S L o.rated d c few (omega arith),
        )
        (ground (arith, ceil_liquidity-floor_collateral S L o.rated a))

  -- For a solvent reserve with depositors, a deposit within the bounds succeeds, takes no more
  -- than was offered, raises the supply by exactly what it takes, does not lower what a collateral
  -- token is worth, and leaves a reserve of the same kind.
  pub deposit-IsNoDearer :
      (a : ℕ)
      → tokens r * a * one < 2 ^ 64 * value r
      → r.liquidity.total_available_amount + a < 2 ^ 64
      → tokens r + minted r a < 2 ^ 64
      → value r + a * one + one ≤ 2 ^ 124
      → (compute_depositable_amount_and_minted_collateral r a
          ≡ ok (record { liquidity_amount = taken r a; collateral_amount = minted r a }))
        × (deposit_liquidity r (taken r a) (minted r a) ≡ ok (deposited r a))
        × (taken r a ≤ a)
        × (value (deposited r a) ≡ value r + taken r a * one)
        × IsNoDearer r (deposited r a)
        × IsOpen (deposited r a)
  unfolding deposit_liquidity deposit mint
  deposit-IsNoDearer a fits room rest small =
      let S = tokens r in
      let L = value r in
      let least = ceil_liquidity-floor_collateral S L o.rated a in
      let bounds = ceil_liquidity_bounds S L o.rated (minted r a) in
      let more : value (deposited r a) ≡ value r + taken r a * one =
        omega (arith, o.solvent.covered) in
      (
        compute_lem a (omega arith) fits,
        ground (arith, least),
        least,
        more,
        rate-rises L S (minted r a) (taken r a) (value (deposited r a)) more bounds.0,
        record {
          solvent = record {
            available_fits = omega (arith, least);
            borrowed_fits = o.solvent.borrowed_fits;
            covered = omega (arith, o.solvent.covered);
          };
          rated = record {
            supply_pos = omega (arith, o.rated.supply_pos);
            supply_fits = rest;
            liquidity_pos = omega (arith, o.rated.liquidity_pos, more);
            liquidity_fits = omega (arith, more, least);
          };
        },
      )
