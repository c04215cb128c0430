-- ===== src/Tickets/Covered.antt =====
-- The queue's total is the sum of the tickets' amounts, through a withdrawal on a ticket and through
-- a cancellation.
use solana_auditor_skill.Prelude.{
  ℕ, refl, ◌+◌, ◌-◌, ◌≤◌, ◌≡◌, Bool, true, false, arith, min, ◌==◌, if◌then◌else◌,
}
use solana_auditor_skill.Outcome.{Outcome, ok, refuse_if, bind_ok}
use solana_auditor_skill.Errors.{insufficient_liquidity}
use solana_auditor_skill.Reserve.Queries.{total_redeemable_collateral_amount}
use solana_auditor_skill.Numerics.{Numerics}
use solana_auditor_skill.Reserve.Types.{Reserve, WithdrawQueue}
use solana_auditor_skill.Reserve.Operations.{
  redeem_collateral, withdraw_including_queued, withdraw_freely_available,
  update_deposit_limit_crossed_timestamp, update_borrow_limit_crossed_timestamp,
}
use solana_auditor_skill.Tickets.{
  WithdrawTicket, dequeue, refresh_reserve_limit_timestamps, count_withdrawal,
  redeem_reserve_collateral, withdraw_queued_liquidity, cancel_withdraw_ticket, check_rest,
  check_min_withdrawn_queued_liquidity_value,
}

-- The tickets of a reserve: one of the amount `amount`, and the others.
abbrev pub IsCovered : Reserve → ℕ → ℕ → Type 0
IsCovered r amount others = r.withdraw_queue.queued_collateral_amount ≡ amount + others

module _ ⦃n : Numerics⦄ where
  redeem_keeps_queue :
      (r : Reserve) (p : Reserve × ℕ) (c : ℕ) (b : Bool)
      → redeem_collateral r c b ≡ ok p
      → p.0.withdraw_queue ≡ r.withdraw_queue
  unfolding redeem_collateral withdraw_including_queued withdraw_freely_available
  redeem_keeps_queue r p c true e = ground arith
  redeem_keeps_queue r p c false e = ground arith

  refresh_keeps_queue :
      (r r' : Reserve) (t : ℕ)
      → refresh_reserve_limit_timestamps r t ≡ ok r'
      → r'.withdraw_queue ≡ r.withdraw_queue
  unfolding refresh_reserve_limit_timestamps update_deposit_limit_crossed_timestamp
      update_borrow_limit_crossed_timestamp
  refresh_keeps_queue r r' t e = ground arith

  count_keeps_queue :
      (b : Bool) (r r' : Reserve) (a t : ℕ)
      → count_withdrawal b r a t ≡ ok r'
      → r'.withdraw_queue ≡ r.withdraw_queue
  unfolding count_withdrawal
  count_keeps_queue true r r' a t e = ground arith
  count_keeps_queue false r r' a t e = ground arith

  -- A cancellation that succeeds takes the lesser of the amount asked and the ticket's off the
  -- ticket, and keeps the queue's total the sum of the tickets' amounts.
  pub cancel_withdraw_ticket-IsCovered :
      (v : ℕ) (r r' : Reserve) (t t' : WithdrawTicket) (asked done others : ℕ)
      → IsCovered r t.queued_collateral_amount others
      → cancel_withdraw_ticket v r t asked ≡ ok (r', t', done)
      → IsCovered r' t'.queued_collateral_amount others
        × (done ≡ min asked t.queued_collateral_amount)
        × (t'.queued_collateral_amount + done ≡ t.queued_collateral_amount)
  unfolding cancel_withdraw_ticket dequeue
  cancel_withdraw_ticket-IsCovered v r r' t t' asked done others h e = ground arith

  redeem_reserve_keeps_queue :
      (r : Reserve) (p : Reserve × ℕ) (c slot time : ℕ) (a b : Bool)
      → redeem_reserve_collateral r c slot time a b ≡ ok p
      → p.0.withdraw_queue ≡ r.withdraw_queue
  unfolding redeem_reserve_collateral
  redeem_reserve_keeps_queue r p c slot time a b e =
      grind (arith, redeem_keeps_queue, refresh_keeps_queue, count_keeps_queue)

  pub dequeue_effect :
      (q q' : WithdrawQueue) (c : ℕ) (closed : Bool)
      → dequeue q c closed ≡ ok q'
      → (q'.queued_collateral_amount + c ≡ q.queued_collateral_amount)
        × (q'.next_withdrawable_ticket_sequence_number
            ≡ q.next_withdrawable_ticket_sequence_number + (if closed then 1 else 0))
        × (q'.next_issued_ticket_sequence_number ≡ q.next_issued_ticket_sequence_number)
  unfolding dequeue
  dequeue_effect q q' c closed e = ground arith

  withdrawn :
      (p r' : Reserve) (q : WithdrawQueue) (t t' : WithdrawTicket) (paid cut rest burnt out : ℕ)
      (r : Reserve) (others : ℕ)
      → IsCovered r t.queued_collateral_amount others
      → rest ≡ t.queued_collateral_amount - cut
      → cut ≤ t.queued_collateral_amount
      → (q.queued_collateral_amount + cut ≡ p.withdraw_queue.queued_collateral_amount)
        × (q.next_withdrawable_ticket_sequence_number
            ≡ p.withdraw_queue.next_withdrawable_ticket_sequence_number
              + (if rest == 0 then 1 else 0))
        × (q.next_issued_ticket_sequence_number
            ≡ p.withdraw_queue.next_issued_ticket_sequence_number)
      → p.withdraw_queue ≡ r.withdraw_queue
      → ◌≡◌ {A = Outcome (Reserve × WithdrawTicket × (ℕ × ℕ))}
          (ok (
            record p { withdraw_queue = q },
            record t { queued_collateral_amount = rest },
            (cut, paid),
          ))
          (ok (r', t', (burnt, out)))
      → IsCovered r' t'.queued_collateral_amount others
        × (t'.queued_collateral_amount + burnt ≡ t.queued_collateral_amount)
        × (r'.withdraw_queue.next_withdrawable_ticket_sequence_number
            ≡ r.withdraw_queue.next_withdrawable_ticket_sequence_number
              + (if t'.queued_collateral_amount == 0 then 1 else 0))
        × (r'.withdraw_queue.next_issued_ticket_sequence_number
            ≡ r.withdraw_queue.next_issued_ticket_sequence_number)
        × (t'.sequence_number ≡ t.sequence_number)
  withdrawn p r' q t t' paid cut rest burnt out r others h part few step same e = ground arith

  pub withdraw_queued_liquidity_effect :
      (v : ℕ) (r r' : Reserve) (t t' : WithdrawTicket) (slot time burnt out others : ℕ)
      → IsCovered r t.queued_collateral_amount others
      → withdraw_queued_liquidity v r t slot time ≡ ok (r', t', (burnt, out))
      → IsCovered r' t'.queued_collateral_amount others
        × (t'.queued_collateral_amount + burnt ≡ t.queued_collateral_amount)
        × (r'.withdraw_queue.next_withdrawable_ticket_sequence_number
            ≡ r.withdraw_queue.next_withdrawable_ticket_sequence_number
              + (if t'.queued_collateral_amount == 0 then 1 else 0))
        × (r'.withdraw_queue.next_issued_ticket_sequence_number
            ≡ r.withdraw_queue.next_issued_ticket_sequence_number)
        × (t'.sequence_number ≡ t.sequence_number)
  unfolding withdraw_queued_liquidity dequeue
  withdraw_queued_liquidity_effect v r r' t t' slot time burnt out others h e =
      let (redeemable, _, k) = bind_ok (total_redeemable_collateral_amount r) _ e in
      let cut = min t.queued_collateral_amount redeemable in
      let rest = t.queued_collateral_amount - cut in
      let (_, _, k1) = bind_ok (refuse_if (redeemable == 0) insufficient_liquidity) _ k in
      let (_, _, k2) = bind_ok (check_rest v r rest) _ k1 in
      let (p, run, k3) = bind_ok (redeem_reserve_collateral r cut slot time true true) _ k2 in
      let (_, _, k4) =
        bind_ok (check_min_withdrawn_queued_liquidity_value v p.0 p.1 (rest == 0)) _ k3 in
      let same = redeem_reserve_keeps_queue r p cut slot time true true run in
      let (queue, closed, k5) = bind_ok (dequeue p.0.withdraw_queue cut (rest == 0)) _ k4 in
      let step = dequeue_effect p.0.withdraw_queue queue cut (rest == 0) closed in
      withdrawn p.0 r' queue t t' p.1 cut rest burnt out r others h refl (omega arith) step same k5

  -- A withdrawal on a ticket that succeeds keeps the queue's total the sum of the tickets'
  -- amounts: the ticket falls by what is burnt, and the next ticket's turn comes exactly when it
  -- is empty.
  pub withdraw_queued_liquidity-IsCovered :
      (v : ℕ) (r r' : Reserve) (t t' : WithdrawTicket) (slot time burnt out others : ℕ)
      → IsCovered r t.queued_collateral_amount others
      → withdraw_queued_liquidity v r t slot time ≡ ok (r', t', (burnt, out))
      → IsCovered r' t'.queued_collateral_amount others
        × (t'.queued_collateral_amount + burnt ≡ t.queued_collateral_amount)
        × (r'.withdraw_queue.next_withdrawable_ticket_sequence_number
            ≡ r.withdraw_queue.next_withdrawable_ticket_sequence_number
              + (if t'.queued_collateral_amount == 0 then 1 else 0))
  withdraw_queued_liquidity-IsCovered v r r' t t' slot time burnt out others h e =
      let f = withdraw_queued_liquidity_effect v r r' t t' slot time burnt out others h e in
      (f.0, f.1, f.2)
