-- ===== src/Reserve/Operations.antt =====
-- The methods of `Reserve` that change it (klend/programs/klend/src/state/reserve.rs). A method
-- returns the new reserve, with its result if it has one. On an error or a panic the runtime
-- discards what the transaction wrote, so no reserve is returned.
pub mod Rate
pub mod Redeem
use solana_auditor_skill.Prelude.{
  ℕ, ◌+◌, ◌-◌, ◌*◌, ◌/◌, ◌^◌, Bool, true, false, ◌&&◌, ◌||◌, Option, some, none, ltb, leb, ◌==◌,
  if◌then◌else◌, min, List, replicate,
}
use solana_auditor_skill.Outcome.{
  Outcome, ok, err, panic, ◌>>=◌, ◌>>◌, ok_or, refuse_if, checked_add, checked_sub, sub_int, fit,
}
use solana_auditor_skill.Errors.{insufficient_liquidity, math_overflow}
use solana_auditor_skill.Numerics.{Numerics, one}
use solana_auditor_skill.Fraction.{to_floor}
use solana_auditor_skill.LastUpdate
use solana_auditor_skill.LastUpdate.{LastUpdate, slots_elapsed}
use solana_auditor_skill.Reserve.Types.{
  Reserve, ReserveLiquidity, ReserveCollateral, ReserveConfig, WithdrawQueue, ReferrerTokenState,
  Pubkey,
}
use solana_auditor_skill.Reserve.Liquidity
use solana_auditor_skill.Reserve.Liquidity.{total_supply, total_borrow}
use solana_auditor_skill.Reserve.Collateral
use solana_auditor_skill.Reserve.Collateral.{collateral_to_liquidity}
use solana_auditor_skill.Reserve.Queries.{
  collateral_exchange_rate, freely_available_liquidity_amount, deposit_limit_crossed,
  borrow_limit_crossed,
}

abbrev pub program_version : ℕ
program_version = 1

abbrev pub empty_queue : WithdrawQueue
empty_queue = record {
  queued_collateral_amount = 0;
  next_issued_ticket_sequence_number = 0;
  next_withdrawable_ticket_sequence_number = 0;
}

-- `Reserve::init`: whatever stood in the account before is gone.
unfoldable pub init :
    (current_slot : ℕ) (lending_market : Pubkey)
    → ReserveLiquidity
    → ReserveCollateral
    → ReserveConfig
    → Reserve
init current_slot lending_market liquidity collateral config = record {
  version = program_version;
  last_update = LastUpdate.new current_slot;
  lending_market = lending_market;
  farm_collateral = 0;
  farm_debt = 0;
  liquidity = liquidity;
  collateral = collateral;
  config = config;
  borrowed_amount_outside_elevation_group = 0;
  borrowed_amounts_against_this_reserve_in_elevation_groups = replicate 32 0;
  withdraw_queue = empty_queue;
}

unfoldable pub deposit_liquidity : Reserve → ℕ → ℕ → Outcome Reserve
deposit_liquidity r liquidity_amount collateral_amount = do
  deposited ← Liquidity.deposit r.liquidity liquidity_amount
  minted ← Collateral.mint r.collateral collateral_amount
  ok (record r { liquidity = deposited; collateral = minted })

-- The available amount, lowered.
abbrev pub take_available : Reserve → ℕ → Reserve
take_available r amount = record r {
  liquidity = record r.liquidity {
    total_available_amount = r.liquidity.total_available_amount - amount;
  };
}

unfoldable pub withdraw_including_queued : Reserve → ℕ → Outcome Reserve
withdraw_including_queued r liquidity_amount = do
  refuse_if (ltb r.liquidity.total_available_amount liquidity_amount) insufficient_liquidity
  ok (take_available r liquidity_amount)

module _ ⦃n : Numerics⦄ where
  -- What is freely available is at most what is available, so the subtraction does not wrap.
  unfoldable pub withdraw_freely_available : Reserve → ℕ → Outcome Reserve
  withdraw_freely_available r liquidity_amount = do
    freely_available_amount ← freely_available_liquidity_amount r
    refuse_if (ltb freely_available_amount liquidity_amount) insufficient_liquidity
    ok (take_available r liquidity_amount)

  abbrev pub withdraw_liquidity : Bool → Reserve → ℕ → Outcome Reserve
  withdraw_liquidity true r amount = withdraw_including_queued r amount
  withdraw_liquidity false r amount = withdraw_freely_available r amount

  unfoldable pub redeem_collateral : Reserve → ℕ → Bool → Outcome (Reserve × ℕ)
  redeem_collateral r collateral_amount use_withdraw_queue = do
    rate ← collateral_exchange_rate r
    liquidity_amount ← collateral_to_liquidity rate collateral_amount
    r' ← withdraw_liquidity use_withdraw_queue r liquidity_amount
    burnt ← Collateral.burn r'.collateral collateral_amount
    ok (record r' { collateral = burnt }, liquidity_amount)

  unfoldable pub borrow : Reserve → ℕ → Bool → Outcome Reserve
  borrow r borrow_f use_withdraw_queue = do
    r' ← withdraw_liquidity use_withdraw_queue r (← to_floor 64 borrow_f)
    borrowed ← n.add (total_borrow r'.liquidity) borrow_f
    ok (record r' { liquidity = record r'.liquidity { borrowed_amount_sf = borrowed } })

  unfoldable pub redeem_fees : Reserve → ℕ → Outcome Reserve
  redeem_fees r withdraw_amount = do
    r' ← withdraw_freely_available r withdraw_amount
    withdraw_amount_f ← n.from_num withdraw_amount
    fees ←
        ok_or (n.checked_sub r'.liquidity.accumulated_protocol_fees_sf withdraw_amount_f)
          math_overflow
    ok (record r' { liquidity = record r'.liquidity { accumulated_protocol_fees_sf = fees } })

  unfoldable pub withdraw_referrer_fees :
      Reserve → ℕ → ReferrerTokenState → Outcome (Reserve × ReferrerTokenState)
  withdraw_referrer_fees r withdraw_amount s = do
    r' ← withdraw_freely_available r withdraw_amount
    withdraw_amount_f ← n.from_num withdraw_amount
    fees ←
        ok_or (n.checked_sub r'.liquidity.accumulated_referrer_fees_sf withdraw_amount_f)
          math_overflow
    unclaimed ← ok_or (n.checked_sub s.amount_unclaimed_sf withdraw_amount_f) math_overflow
    ok (
      record r' { liquidity = record r'.liquidity { accumulated_referrer_fees_sf = fees } },
      record s { amount_unclaimed_sf = unclaimed },
    )

  -- When a limit was first seen crossed: kept while it stays crossed, cleared when it is not.
  abbrev pub crossed_timestamp : Bool → ℕ → ℕ → ℕ
  crossed_timestamp true old timestamp = if old == 0 then timestamp else old
  crossed_timestamp false old timestamp = 0

  unfoldable pub update_deposit_limit_crossed_timestamp : Reserve → ℕ → Outcome Reserve
  update_deposit_limit_crossed_timestamp r timestamp = deposit_limit_crossed r >>= λ crossed.
      ok (record r {
        liquidity = record r.liquidity {
          deposit_limit_crossed_timestamp =
              crossed_timestamp crossed r.liquidity.deposit_limit_crossed_timestamp timestamp;
        };
      })

  unfoldable pub update_borrow_limit_crossed_timestamp : Reserve → ℕ → Outcome Reserve
  update_borrow_limit_crossed_timestamp r timestamp = borrow_limit_crossed r >>= λ crossed.
      ok (record r {
        liquidity = record r.liquidity {
          borrow_limit_crossed_timestamp =
              crossed_timestamp crossed r.liquidity.borrow_limit_crossed_timestamp timestamp;
        };
      })
