-- ===== src/Reserve/Operations/Redeem.antt =====
-- What leaves a reserve: withdrawals, redemptions and fees.
use native.Mathlib.Nat.{mul-le-mul, le_refl}
use solana_auditor_skill.Prelude.{
  ℕ, ◌+◌, ◌-◌, ◌*◌, ◌^◌, ◌≤◌, ◌<◌, ◌≡◌, Bool, true, false, arith, refl, sym, subst, ltb, Bool-cases,
  inl, inr, if◌then◌else◌,
}
use solana_auditor_skill.Prelude.Division.{le_of_mul-le}
use solana_auditor_skill.Outcome.{ok, err}
use solana_auditor_skill.Errors.{insufficient_liquidity}
use solana_auditor_skill.Numerics.{Numerics, IsDocumented, one}
use solana_auditor_skill.Reserve.Types.{Reserve}
use solana_auditor_skill.Reserve.Liquidity.Supply.{IsSolvent}
use solana_auditor_skill.Reserve.Collateral.{burn}
use solana_auditor_skill.Reserve.Collateral.Exchange.{
  floor_liquidity, floor_liquidity_bounds, ceil_liquidity_bounds, collateral_to_liquidity_lem,
}
use solana_auditor_skill.Reserve.Queries.{
  queued_liquidity_amount, freely_available_liquidity_amount,
}
use solana_auditor_skill.Reserve.Operations.{
  withdraw_including_queued, withdraw_freely_available, redeem_collateral, take_available,
  withdraw_liquidity, deposit_liquidity,
}
use solana_auditor_skill.Reserve.Operations.Rate.{
  tokens, value, IsOpen, IsNoDearer, minted, taken, deposited, deposit-IsNoDearer,
  collateral_exchange_rate_lem,
}

-- The liquidity that the queued tickets stand for, and what may leave, with a ticket or without.
abbrev pub queued : Reserve → ℕ
queued r = floor_liquidity (tokens r) (value r) r.withdraw_queue.queued_collateral_amount

abbrev pub withdrawable : Bool → Reserve → ℕ
withdrawable true r = r.liquidity.total_available_amount
withdrawable false r = r.liquidity.total_available_amount - queued r

abbrev pub redeemed : Reserve → ℕ → ℕ
redeemed r c = floor_liquidity (tokens r) (value r) c

-- The reserve without the burnt tokens and what they paid.
abbrev pub after_redeem : Reserve → ℕ → Reserve
after_redeem r c = record (take_available r (redeemed r c)) {
  collateral = record r.collateral { mint_total_supply = tokens r - c };
}

rate-keeps :
    (c k L S : ℕ) → k * ((S + c) * one) ≤ c * (L + k * one) → (L + k * one) * S ≤ L * (S + c)
rate-keeps c k L S enough = omega arith

redeem-keeps-rate :
    (L S c k L' S' : ℕ) → L' + k * one ≡ L → S' + c ≡ S → k * (S * one) ≤ c * L → L * S' ≤ L' * S
redeem-keeps-rate L S c k L' S' h e enough =
    rw (sym h, sym e) (rate-keeps c k L' S' (rw (h, e) enough))

buys-back :
    (c k L S L' out : ℕ)
    → 0 < S
    → L' ≡ L + k * one
    → c * L ≤ k * (S * one)
    → out * ((S + c) * one) ≤ c * L'
    → out ≤ k
buys-back c k L S L' out pos h paid back =
    let all : out * ((S + c) * one) ≤ c * (L + k * one) =
      subst (λ l. out * ((S + c) * one) ≤ c * l) h back in
    le_of_mul-le out k ((S + c) * one) (omega arith) (omega arith)

module _ ⦃n : Numerics⦄ (d : IsDocumented n) (r : Reserve) (o : IsOpen r) where
  freely_available_lem :
      r.withdraw_queue.queued_collateral_amount ≤ tokens r
      → freely_available_liquidity_amount r ≡ ok (withdrawable false r)
  unfolding freely_available_liquidity_amount queued_liquidity_amount
  freely_available_lem h =
      rw
        (
          collateral_exchange_rate_lem d r o,
          collateral_to_liquidity_lem (tokens r) (value r) o.rated d
              r.withdraw_queue.queued_collateral_amount h,
        )
        refl

  -- A withdrawal from a solvent reserve with depositors takes the amount off what is available if
  -- the amount is at most what may leave (with a ticket what is available, without one what the
  -- queued tickets leave of it), and is refused as `insufficient_liquidity` otherwise, when no
  -- more collateral is queued than there is.
  pub withdraw_liquidity_outcome :
      (with_ticket : Bool) (a : ℕ)
      → r.withdraw_queue.queued_collateral_amount ≤ tokens r
      → withdraw_liquidity with_ticket r a ≡ (
          if ltb (withdrawable with_ticket r) a
          then err insufficient_liquidity
          else ok (take_available r a))
  unfolding withdraw_including_queued withdraw_freely_available
  withdraw_liquidity_outcome true a h = ground arith
  withdraw_liquidity_outcome false a h = rw (freely_available_lem h) (ground arith)

  withdrawable-le :
      (with_ticket : Bool) (a : ℕ)
      → a ≤ withdrawable with_ticket r
      → a ≤ r.liquidity.total_available_amount
  withdrawable-le true a h = h
  withdrawable-le false a h = omega arith

  -- For a solvent reserve with depositors, of whose collateral no more is queued than there is, a
  -- redemption of collateral that exists and whose liquidity may leave (with a ticket what is
  -- available, without one what is not queued) succeeds, lowers the supply by exactly what it
  -- pays, does not lower what a collateral token is worth, and leaves the reserve solvent.
  pub redeem_collateral-IsNoDearer :
      (with_ticket : Bool) (c : ℕ)
      → r.withdraw_queue.queued_collateral_amount ≤ tokens r
      → c ≤ tokens r
      → redeemed r c ≤ withdrawable with_ticket r
      → (redeem_collateral r c with_ticket ≡ ok (after_redeem r c, redeemed r c))
        × (value (after_redeem r c) + redeemed r c * one ≡ value r)
        × IsNoDearer r (after_redeem r c)
        × IsSolvent (after_redeem r c).liquidity
  unfolding redeem_collateral burn
  redeem_collateral-IsNoDearer with_ticket c h few may =
      let S = tokens r in
      let L = value r in
      let out = redeemed r c in
      let bounds = floor_liquidity_bounds S L o.rated c in
      let covered : out * one ≤ L =
        le_of_mul-le (out * one) L S o.rated.supply_pos
          (omega (arith, bounds.0, mul-le-mul few (le_refl L))) in
      let there : out ≤ r.liquidity.total_available_amount = withdrawable-le with_ticket out may in
      let less : value (after_redeem r c) + out * one ≡ L = omega (arith, o.solvent.covered) in
      (
        rw
            (
              collateral_exchange_rate_lem d r o,
              collateral_to_liquidity_lem S L o.rated d c few,
              withdraw_liquidity_outcome with_ticket out h,
            )
            (ground (arith, may)),
        less,
        redeem-keeps-rate L S c out (value (after_redeem r c)) (S - c) less (omega (arith, few))
            bounds.0,
        record {
          available_fits = omega (arith, o.solvent.available_fits);
          borrowed_fits = o.solvent.borrowed_fits;
          covered = omega (arith, o.solvent.covered);
        },
      )

  -- From a solvent reserve with depositors, of whose collateral no more is queued than there is, a
  -- redemption of collateral that exists, whose liquidity is more than may leave, is refused as
  -- `insufficient_liquidity`.
  pub redeem_collateral-refused :
      (with_ticket : Bool) (c : ℕ)
      → r.withdraw_queue.queued_collateral_amount ≤ tokens r
      → c ≤ tokens r
      → withdrawable with_ticket r < redeemed r c
      → redeem_collateral r c with_ticket ≡ err insufficient_liquidity
  unfolding redeem_collateral
  redeem_collateral-refused with_ticket c h few over =
      rw
        (
          collateral_exchange_rate_lem d r o,
          collateral_to_liquidity_lem (tokens r) (value r) o.rated d c few,
          withdraw_liquidity_outcome with_ticket (redeemed r c) h,
        )
        (ground (arith, over))

  redeem_collateral_outcome :
      (with_ticket : Bool) (c : ℕ)
      → r.withdraw_queue.queued_collateral_amount ≤ tokens r
      → c ≤ tokens r
      → redeem_collateral r c with_ticket ≡ (
          if ltb (withdrawable with_ticket r) (redeemed r c)
          then err insufficient_liquidity
          else ok (after_redeem r c, redeemed r c))
  redeem_collateral_outcome with_ticket c h few =
      elim (Bool-cases (ltb (withdrawable with_ticket r) (redeemed r c))) [
        | inl over ↦ rw over (redeem_collateral-refused with_ticket c h few (ground (arith, over)))
        | inr may ↦
            rw may (redeem_collateral-IsNoDearer with_ticket c h few (ground (arith, may))).0
      ]

module _ ⦃n : Numerics⦄ (d : IsDocumented n) (r : Reserve) (o : IsOpen r) where
  -- For a solvent reserve with depositors, a liquidity amount whose collateral and totals fit
  -- their words, and a queue that holds no more collateral than there is: a deposit succeeds and
  -- takes no more than was offered, and the collateral that it minted is worth no more than it
  -- took. Redeemed at once, with a ticket or without, the collateral pays exactly that, or the
  -- redemption is refused as `insufficient_liquidity` where that is more than may leave, which
  -- with a ticket it never is.
  pub deposit-redeem :
      (with_ticket : Bool) (a : ℕ)
      → tokens r * a * one < 2 ^ 64 * value r
      → r.liquidity.total_available_amount + a < 2 ^ 64
      → tokens r + minted r a < 2 ^ 64
      → value r + a * one + one ≤ 2 ^ 124
      → r.withdraw_queue.queued_collateral_amount ≤ tokens r
      → (deposit_liquidity r (taken r a) (minted r a) ≡ ok (deposited r a))
        × (redeem_collateral (deposited r a) (minted r a) with_ticket ≡ (
            if ltb
              (withdrawable with_ticket (deposited r a))
              (redeemed (deposited r a) (minted r a))
            then err insufficient_liquidity
            else ok
                (after_redeem (deposited r a) (minted r a), redeemed (deposited r a) (minted r a))))
        × (redeemed (deposited r a) (minted r a) ≤ withdrawable true (deposited r a))
        × (redeemed (deposited r a) (minted r a) ≤ taken r a)
        × (taken r a ≤ a)
  deposit-redeem with_ticket a fits room rest small h =
      let done = deposit-IsNoDearer d r o a fits room rest small in
      let s = done.5 in
      let S' = tokens (deposited r a) in
      let L' = value (deposited r a) in
      let paid = ceil_liquidity_bounds (tokens r) (value r) o.rated (minted r a) in
      let back = floor_liquidity_bounds S' L' s.rated (minted r a) in
      let fair =
        buys-back (minted r a) (taken r a) (value r) (tokens r) L'
          (redeemed (deposited r a) (minted r a)) o.rated.supply_pos done.3 paid.0 back.0 in
      (
        done.1,
        redeem_collateral_outcome d (deposited r a) s with_ticket (minted r a) (omega arith)
            (omega arith),
        omega (arith, fair),
        fair,
        done.2,
      )
