-- ===== src/Tickets/Order.antt =====
-- The tickets that are outstanding, along the operations on the queue
-- (klend/programs/klend/src/lending_market/lending_operations.rs) and the ways in which
-- klend/programs/klend/src/handlers/handler_withdraw_queued_liquidity.rs serves a ticket. A ticket's
-- account is derived from its number: the ticket served has the next withdrawable one.
pub mod Numbered
use solana_auditor_skill.Prelude.{
  ℕ, zero, suc, ◌+◌, ◌≡◌, ◌==◌, Bool, true, false, arith, refl, sym, ap, subst, Option, some, none,
  List, [], ◌∷◌, ◌++◌, ◌∙◌, get_elem?, set_at, if◌then◌else◌, Bool-cases, inl, inr,
}
use solana_auditor_skill.Outcome.{ok}
use solana_auditor_skill.Numerics.{Numerics}
use solana_auditor_skill.Reserve.Types.{Reserve, WithdrawQueue, Pubkey}
use solana_auditor_skill.Tickets.{
  WithdrawTicket, enqueue, dequeue, enqueue_to_withdraw, withdraw_queued_liquidity,
  cancel_withdraw_ticket,
}
use solana_auditor_skill.Tickets.Covered.{
  IsCovered, dequeue_effect, withdraw_queued_liquidity_effect, cancel_withdraw_ticket-IsCovered,
}
use solana_auditor_skill.Tickets.Order.Numbered.{
  total, AreNumbered, IsQueueOf, remove_at, total-append, AreNumbered-append, total-set_at,
  AreNumbered-set_at, remove_first,
}

-- A ticket that is served is closed when it is empty.
abbrev pub served : List WithdrawTicket → ℕ → WithdrawTicket → List WithdrawTicket
served ts i t' = if t'.queued_collateral_amount == 0 then remove_at ts i else set_at ts i t'

abbrev pub ticket_of : ℕ → (owner reserve : Pubkey) → ℕ → WithdrawTicket
ticket_of number owner reserve amount = record {
  sequence_number = number;
  owner = owner;
  reserve = reserve;
  queued_collateral_amount = amount;
}

module _ ⦃n : Numerics⦄ where
  enqueue_effect :
      (v : ℕ) (r r' : Reserve) (amount number : ℕ)
      → enqueue_to_withdraw v r amount ≡ ok (r', number)
      → (number ≡ r.withdraw_queue.next_issued_ticket_sequence_number)
        × (r'.withdraw_queue.queued_collateral_amount
            ≡ r.withdraw_queue.queued_collateral_amount + amount)
        × (r'.withdraw_queue.next_issued_ticket_sequence_number ≡ suc number)
        × (r'.withdraw_queue.next_withdrawable_ticket_sequence_number
            ≡ r.withdraw_queue.next_withdrawable_ticket_sequence_number)
  unfolding enqueue_to_withdraw enqueue
  enqueue_effect v r r' amount number e = ground arith

  cancel_effect :
      (v : ℕ) (r r' : Reserve) (t t' : WithdrawTicket) (asked done : ℕ)
      → cancel_withdraw_ticket v r t asked ≡ ok (r', t', done)
      → (t'.sequence_number ≡ t.sequence_number)
        × (r'.withdraw_queue.next_issued_ticket_sequence_number
            ≡ r.withdraw_queue.next_issued_ticket_sequence_number)
        × (r'.withdraw_queue.next_withdrawable_ticket_sequence_number
            ≡ r.withdraw_queue.next_withdrawable_ticket_sequence_number)
  unfolding cancel_withdraw_ticket dequeue
  cancel_effect v r r' t t' asked done e = ground arith

  -- What happens to the queue of a reserve, and to its outstanding tickets. A ticket that was cancelled
  -- whole, or whose owner cannot be paid, is skipped with all that it still has.
  pub data QueueRun (start : Reserve) (first : List WithdrawTicket)
      : Reserve → List WithdrawTicket → Type 0 where
    rest : QueueRun start first start first
    elsewhere :
        {r r' : Reserve} {ts : List WithdrawTicket}
        → QueueRun start first r ts
        → r'.withdraw_queue ≡ r.withdraw_queue
        → QueueRun start first r' ts
    enqueues :
        {r r' : Reserve} {ts : List WithdrawTicket} (v amount number : ℕ) (owner reserve : Pubkey)
        → QueueRun start first r ts
        → enqueue_to_withdraw v r amount ≡ ok (r', number)
        → QueueRun start first r' (ts ++ ticket_of number owner reserve amount ∷ [])
    cancels :
        {r r' : Reserve} {ts : List WithdrawTicket} {t t' : WithdrawTicket} (v i asked done : ℕ)
        → QueueRun start first r ts
        → get_elem? ts i ≡ some t
        → cancel_withdraw_ticket v r t asked ≡ ok (r', t', done)
        → QueueRun start first r' (set_at ts i t')
    serves :
        {r r' : Reserve} {ts : List WithdrawTicket} {t t' : WithdrawTicket}
        (v i slot time burnt out : ℕ)
        → QueueRun start first r ts
        → get_elem? ts i ≡ some t
        → t.sequence_number ≡ r.withdraw_queue.next_withdrawable_ticket_sequence_number
        → withdraw_queued_liquidity v r t slot time ≡ ok (r', t', (burnt, out))
        → QueueRun start first r' (served ts i t')
    skips :
        {r : Reserve} {ts : List WithdrawTicket} {t : WithdrawTicket} {q : WithdrawQueue} (i : ℕ)
        → QueueRun start first r ts
        → get_elem? ts i ≡ some t
        → t.sequence_number ≡ r.withdraw_queue.next_withdrawable_ticket_sequence_number
        → dequeue r.withdraw_queue t.queued_collateral_amount true ≡ ok q
        → QueueRun start first (record r { withdraw_queue = q }) (remove_at ts i)

  enqueued-IsQueueOf :
      (v : ℕ) (r r' : Reserve) (ts : List WithdrawTicket) (amount number : ℕ)
      (owner reserve : Pubkey)
      → IsQueueOf r.withdraw_queue ts
      → enqueue_to_withdraw v r amount ≡ ok (r', number)
      → IsQueueOf r'.withdraw_queue (ts ++ ticket_of number owner reserve amount ∷ [])
  enqueued-IsQueueOf v r r' ts amount number owner reserve q e =
      let f = enqueue_effect v r r' amount number e in
      let t = ticket_of number owner reserve amount in
      let w = r.withdraw_queue in
      let first = w.next_withdrawable_ticket_sequence_number in
      let before = subst (AreNumbered first ts) (sym f.0) q.1 in
      (
        omega (arith, total-append ts t, q.0, f.1),
        rw (f.2, f.3) (AreNumbered-append first number ts t before refl),
      )

  cancelled-IsQueueOf :
      (v : ℕ) (r r' : Reserve) (ts : List WithdrawTicket) (i : ℕ) (t t' : WithdrawTicket)
      (asked done : ℕ)
      → IsQueueOf r.withdraw_queue ts
      → get_elem? ts i ≡ some t
      → cancel_withdraw_ticket v r t asked ≡ ok (r', t', done)
      → IsQueueOf r'.withdraw_queue (set_at ts i t')
  cancelled-IsQueueOf v r r' ts i t t' asked done q at e =
      let (others, before, after) = total-set_at ts i t t' at in
      let f = cancel_effect v r r' t t' asked done e in
      let sums = cancel_withdraw_ticket-IsCovered v r r' t t' asked done others (q.0 ∙ before) e in
      let w = r.withdraw_queue in
      (
        sums.0 ∙ sym after,
        rw (f.1, f.2)
            (AreNumbered-set_at w.next_withdrawable_ticket_sequence_number
              w.next_issued_ticket_sequence_number ts i t t' at f.0 q.1),
      )

  served-IsQueueOf :
      (v : ℕ) (r r' : Reserve) (ts : List WithdrawTicket) (i : ℕ) (t t' : WithdrawTicket)
      (slot time burnt out : ℕ)
      → IsQueueOf r.withdraw_queue ts
      → get_elem? ts i ≡ some t
      → t.sequence_number ≡ r.withdraw_queue.next_withdrawable_ticket_sequence_number
      → withdraw_queued_liquidity v r t slot time ≡ ok (r', t', (burnt, out))
      → IsQueueOf r'.withdraw_queue (served ts i t')
  served-IsQueueOf v r r' ts i t t' slot time burnt out q at turn e =
      let w = r.withdraw_queue in
      let (others, before, after) = total-set_at ts i t t' at in
      let f =
        withdraw_queued_liquidity_effect v r r' t t' slot time burnt out others (q.0 ∙ before) e in
      let first = w.next_withdrawable_ticket_sequence_number in
      let next = w.next_issued_ticket_sequence_number in
      let without = remove_first first next ts i t at q.1 turn in
      elim (Bool-cases (t'.queued_collateral_amount == 0)) [
        | inl emptied ↦
            let moved : r'.withdraw_queue.next_withdrawable_ticket_sequence_number ≡ suc first =
              ground (arith, f.2, emptied) in
            let none_left : t'.queued_collateral_amount ≡ 0 = ground (arith, emptied) in
            rw emptied (omega (arith, f.0, none_left, before, without.1), rw (moved, f.3) without.0)
        | inr left ↦
            let moved : r'.withdraw_queue.next_withdrawable_ticket_sequence_number ≡ first =
              ground (arith, f.2, left) in
            rw left (
              f.0 ∙ sym after,
              rw (moved, f.3) (AreNumbered-set_at first next ts i t t' at f.4 q.1),
            )
      ]

  skipped-IsQueueOf :
      (w w' : WithdrawQueue) (ts : List WithdrawTicket) (i : ℕ) (t : WithdrawTicket)
      → IsQueueOf w ts
      → get_elem? ts i ≡ some t
      → t.sequence_number ≡ w.next_withdrawable_ticket_sequence_number
      → dequeue w t.queued_collateral_amount true ≡ ok w'
      → IsQueueOf w' (remove_at ts i)
  skipped-IsQueueOf w w' ts i t q at turn e =
      let f = dequeue_effect w w' t.queued_collateral_amount true e in
      let first = w.next_withdrawable_ticket_sequence_number in
      let without = remove_first first w.next_issued_ticket_sequence_number ts i t at q.1 turn in
      let moved : w'.next_withdrawable_ticket_sequence_number ≡ suc first = omega (arith, f.1) in
      (omega (arith, f.0, q.0, without.1), rw (moved, f.2) without.0)

  -- Along whatever issues, cancellations and services of tickets succeed, where the ticket that is
  -- served (or skipped, with all that it still has) is the one of the next number to be withdrawn,
  -- and whatever else leaves the queue alone: a queue stays in order. That is, what is queued is
  -- the sum of the outstanding tickets, and these have, in the order in which they were issued,
  -- the consecutive numbers from the next one to be withdrawn up to the next one to be issued.
  pub QueueRun-IsQueueOf :
      {start : Reserve} {first : List WithdrawTicket} {r : Reserve} {ts : List WithdrawTicket}
      → IsQueueOf start.withdraw_queue first
      → QueueRun start first r ts
      → IsQueueOf r.withdraw_queue ts
  QueueRun-IsQueueOf q rest = q
  QueueRun-IsQueueOf q (elsewhere {ts = ts} run same) =
      subst (λ w. IsQueueOf w ts) (sym same) (QueueRun-IsQueueOf q run)
  QueueRun-IsQueueOf q (enqueues {r = r} {r' = r'} {ts = ts} v amount number owner reserve run e) =
      enqueued-IsQueueOf v r r' ts amount number owner reserve (QueueRun-IsQueueOf q run) e
  QueueRun-IsQueueOf q
        (cancels {r = r} {r' = r'} {ts = ts} {t = t} {t' = t'} v i asked done run at e) =
      cancelled-IsQueueOf v r r' ts i t t' asked done (QueueRun-IsQueueOf q run) at e
  QueueRun-IsQueueOf q
        (serves {r = r} {r' = r'} {ts = ts} {t = t} {t' = t'} v i slot time burnt out run at turn
          e) =
      served-IsQueueOf v r r' ts i t t' slot time burnt out (QueueRun-IsQueueOf q run) at turn e
  QueueRun-IsQueueOf q (skips {r = r} {ts = ts} {t = t} {q = w} i run at turn e) =
      skipped-IsQueueOf r.withdraw_queue w ts i t (QueueRun-IsQueueOf q run) at turn e
