-- ===== src/Tickets.antt =====
-- The withdraw queue: `WithdrawQueue` of klend/programs/klend/src/state/reserve.rs, and the operations on
-- it in lending_market/lending_operations.rs. Of the lending market they read one setting, and of a
-- ticket its amount. A time is in seconds and not negative.

pub mod Covered
pub mod Order
use solana_auditor_skill.Prelude.{
  ℕ, ◌+◌, ◌-◌, ◌^◌, Bool, true, false, not, ltb, ◌==◌, if◌then◌else◌, min,
}
use solana_auditor_skill.Outcome.{Outcome, ok, err, panic, ◌>>=◌, ◌>>◌, refuse_if, sub_int, fit}
use solana_auditor_skill.Errors.{
  invalid_amount, reserve_stale, insufficient_liquidity, withdraw_ticket_value_too_small,
  withdraw_queued_liquidity_value_too_small,
}
use solana_auditor_skill.Numerics.{Numerics}
use solana_auditor_skill.LastUpdate.{is_stale, mark_stale, no_checks}
use solana_auditor_skill.WithdrawalCaps.{add_to_withdrawal_accum}
use solana_auditor_skill.Reserve.Types.{Reserve, WithdrawQueue, Pubkey}
use solana_auditor_skill.Reserve.Liquidity.{liquidity_amount_to_market_value}
use solana_auditor_skill.Reserve.Collateral.{collateral_to_liquidity}
use solana_auditor_skill.Reserve.Queries.{
  collateral_exchange_rate, total_redeemable_collateral_amount,
}
use solana_auditor_skill.Reserve.Operations.{
  redeem_collateral, update_deposit_limit_crossed_timestamp, update_borrow_limit_crossed_timestamp,
}

pub record WithdrawTicket : Type 0 where
  pub sequence_number : ℕ
  pub owner : Pubkey
  pub reserve : Pubkey
  pub queued_collateral_amount : ℕ

-- The amount that is queued grows, and the ticket gets the next number.
unfoldable pub enqueue : WithdrawQueue → ℕ → Outcome (WithdrawQueue × ℕ)
enqueue q collateral_amount = do
  total ← fit 64 (q.queued_collateral_amount + collateral_amount)
  following ← fit 64 (q.next_issued_ticket_sequence_number + 1)
  ok (
    record q { queued_collateral_amount = total; next_issued_ticket_sequence_number = following },
    q.next_issued_ticket_sequence_number,
  )

unfoldable pub dequeue : WithdrawQueue → ℕ → Bool → Outcome WithdrawQueue
dequeue q collateral_amount ticket_closed = do
  total ← sub_int q.queued_collateral_amount collateral_amount
  following ←
      (if ticket_closed
        then fit 64 (q.next_withdrawable_ticket_sequence_number + 1)
        else ok q.next_withdrawable_ticket_sequence_number)
  ok (record q {
    queued_collateral_amount = total;
    next_withdrawable_ticket_sequence_number = following;
  })

module _ ⦃n : Numerics⦄ where
  unfoldable pub check_min_withdraw_ticket_value : ℕ → Reserve → ℕ → Outcome (Unit {0})
  check_min_withdraw_ticket_value min_value r collateral_amount = do
    rate ← collateral_exchange_rate r
    liquidity_amount ← collateral_to_liquidity rate collateral_amount
    liquidity_f ← n.from_num liquidity_amount
    ticket_value ← liquidity_amount_to_market_value r.liquidity liquidity_f
    minimum ← n.from_num min_value
    refuse_if (ltb ticket_value minimum) withdraw_ticket_value_too_small

  unfoldable pub check_min_withdrawn_queued_liquidity_value :
      ℕ → Reserve → ℕ → Bool → Outcome (Unit {0})
  check_min_withdrawn_queued_liquidity_value min_value r liquidity_amount true = ok tt
  check_min_withdrawn_queued_liquidity_value min_value r liquidity_amount false = do
    liquidity_f ← n.from_num liquidity_amount
    value ← liquidity_amount_to_market_value r.liquidity liquidity_f
    minimum ← n.from_num min_value
    refuse_if (ltb value minimum) withdraw_queued_liquidity_value_too_small

  unfoldable pub refresh_reserve_limit_timestamps : Reserve → ℕ → Outcome Reserve
  refresh_reserve_limit_timestamps r timestamp = do
    r' ← update_deposit_limit_crossed_timestamp r timestamp
    update_borrow_limit_crossed_timestamp r' timestamp

  -- The withdrawal cap counts what was redeemed, if asked to.
  unfoldable pub count_withdrawal : Bool → Reserve → ℕ → ℕ → Outcome Reserve
  count_withdrawal false r liquidity_amount timestamp = ok r
  count_withdrawal true r liquidity_amount timestamp = do
    cap ← add_to_withdrawal_accum r.config.deposit_withdrawal_cap liquidity_amount timestamp
    ok (record r { config = record r.config { deposit_withdrawal_cap = cap } })

  unfoldable pub redeem_reserve_collateral :
      Reserve
      → (collateral_amount slot timestamp : ℕ)
        (add_amount_to_withdrawal_caps use_withdraw_queue : Bool)
      → Outcome (Reserve × ℕ)
  redeem_reserve_collateral r collateral_amount slot timestamp add_amount_to_withdrawal_caps
        use_withdraw_queue =
      do
        refuse_if (collateral_amount == 0) invalid_amount
        stale ← is_stale r.last_update slot no_checks
        refuse_if stale reserve_stale
        redeemed ← redeem_collateral r collateral_amount use_withdraw_queue
        refreshed ← refresh_reserve_limit_timestamps redeemed.0 timestamp
        let marked = record refreshed { last_update = mark_stale refreshed.last_update }
        counted ← count_withdrawal add_amount_to_withdrawal_caps marked redeemed.1 timestamp
        ok (counted, redeemed.1)

  unfoldable pub enqueue_to_withdraw : ℕ → Reserve → ℕ → Outcome (Reserve × ℕ)
  enqueue_to_withdraw min_value r collateral_amount = do
    refuse_if (collateral_amount == 0) invalid_amount
    check_min_withdraw_ticket_value min_value r collateral_amount
    queued ← enqueue r.withdraw_queue collateral_amount
    ok (record r { withdraw_queue = queued.0 }, queued.1)

  -- What is left of a ticket is nothing or worth a ticket.
  abbrev pub check_rest : ℕ → Reserve → ℕ → Outcome (Unit {0})
  check_rest min_value r rest =
      if rest == 0 then ok tt else check_min_withdraw_ticket_value min_value r rest

  unfoldable pub withdraw_queued_liquidity :
      ℕ
      → Reserve
      → WithdrawTicket
      → (slot timestamp : ℕ) → Outcome (Reserve × WithdrawTicket × (ℕ × ℕ))
  withdraw_queued_liquidity min_value r t slot timestamp = do
    redeemable ← total_redeemable_collateral_amount r
    refuse_if (redeemable == 0) insufficient_liquidity
    let burnt = min t.queued_collateral_amount redeemable
    let rest = t.queued_collateral_amount - burnt
    let emptied = rest == 0
    check_rest min_value r rest
    redeemed ← redeem_reserve_collateral r burnt slot timestamp true true
    check_min_withdrawn_queued_liquidity_value min_value redeemed.0 redeemed.1 emptied
    queue ← dequeue redeemed.0.withdraw_queue burnt emptied
    ok (
      record redeemed.0 { withdraw_queue = queue },
      record t { queued_collateral_amount = rest },
      (burnt, redeemed.1),
    )

  unfoldable pub cancel_withdraw_ticket :
      ℕ → Reserve → WithdrawTicket → ℕ → Outcome (Reserve × WithdrawTicket × ℕ)
  cancel_withdraw_ticket min_value r t collateral_amount = do
    refuse_if (collateral_amount == 0) invalid_amount
    let cancelled = min collateral_amount t.queued_collateral_amount
    let rest = t.queued_collateral_amount - cancelled
    check_rest min_value r rest
    queue ← dequeue r.withdraw_queue cancelled false
    ok (
      record r { withdraw_queue = queue },
      record t { queued_collateral_amount = rest },
      cancelled,
    )
