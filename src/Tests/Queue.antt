-- ===== src/Tests/Queue.antt =====
-- The withdraw queue: a ticket of 500 collateral tokens, with 500 more in the queue.
use solana_auditor_skill.Prelude.{ℕ, [], ◌∷◌, ◌+◌, ◌≡◌, min, if◌then◌else◌, ◌==◌, false, refl}
use solana_auditor_skill.Prelude.Int.{pos, ◌+ℤ◌, ◌-ℤ◌}
use solana_auditor_skill.Outcome.{ok}
use solana_auditor_skill.Numerics.Exact.{exact}
use solana_auditor_skill.Fraction.{
  big_mul, big_div, big_from_num, big_div_ceil, big_mul_by_int, big_div_by_int, fraction_of_big,
  panicking_shl, to_floor, to_ceil, try_to_floor, full_mul_int_ratio,
}
use solana_auditor_skill.LastUpdate.{is_stale, slots_elapsed, mark_stale, no_checks}
use solana_auditor_skill.WithdrawalCaps.{
  add_to_withdrawal_accum, check_and_update_withdrawal_caps, roll_interval, check_capacity,
  update_counter, remaining_withdrawal_caps_amount, check_last_interval_elapsed,
  reset_current_interval_and_counter,
}
use solana_auditor_skill.Reserve.Types.{Reserve, WithdrawQueue}
use solana_auditor_skill.Reserve.Liquidity.{
  total_supply, liquidity_amount_to_market_value, mint_factor_sf, ten_pow,
}
use solana_auditor_skill.Reserve.Collateral.{
  exchange_rate, burn, collateral_to_liquidity, fraction_collateral_to_liquidity,
  liquidity_to_collateral, liquidity_to_collateral_fraction, liquidity_to_collateral_ceil,
  fraction_liquidity_to_collateral_ceil,
}
use solana_auditor_skill.Reserve.Queries.{
  collateral_exchange_rate, total_redeemable_collateral_amount, deposit_limit_crossed,
  borrow_limit_crossed,
}
use solana_auditor_skill.Reserve.Operations.{
  redeem_collateral, withdraw_including_queued, update_deposit_limit_crossed_timestamp,
  update_borrow_limit_crossed_timestamp,
}
use solana_auditor_skill.Tickets.{
  WithdrawTicket, enqueue, dequeue, check_min_withdraw_ticket_value,
  check_min_withdrawn_queued_liquidity_value, refresh_reserve_limit_timestamps, count_withdrawal,
  redeem_reserve_collateral, enqueue_to_withdraw, withdraw_queued_liquidity, cancel_withdraw_ticket,
}
use solana_auditor_skill.Tickets.Covered.{
  IsCovered, withdraw_queued_liquidity-IsCovered, cancel_withdraw_ticket-IsCovered,
}
use solana_auditor_skill.Tickets.Order.{
  QueueRun, rest, enqueues, cancels, serves, ticket_of, QueueRun-IsQueueOf,
}
use solana_auditor_skill.Tickets.Order.Numbered.{IsQueueOf}
use solana_auditor_skill.Tests.Samples.{pool, hourly}

abbrev ticket : WithdrawTicket
ticket = record { sequence_number = 0; owner = 8; reserve = 7; queued_collateral_amount = 500 }

abbrev fresh : Reserve
fresh = record pool {
  last_update = record { slot = 4_000; stale = false; price_status = no_checks };
}

abbrev cancelled : Reserve
cancelled = record fresh {
  withdraw_queue = record fresh.withdraw_queue { queued_collateral_amount = 700 };
}

abbrev ticket_rest : WithdrawTicket
ticket_rest = record ticket { queued_collateral_amount = 200 }

cancel_run :
    cancel_withdraw_ticket ⦃n = exact⦄ 0 fresh ticket 300 ≡ ok (cancelled, ticket_rest, 300)
unfolding cancel_withdraw_ticket dequeue check_min_withdraw_ticket_value collateral_exchange_rate
    total_supply exchange_rate collateral_to_liquidity fraction_collateral_to_liquidity big_mul
    big_div_by_int fraction_of_big to_floor liquidity_amount_to_market_value mint_factor_sf ten_pow
    full_mul_int_ratio
cancel_run = refl

cancel_withdraw_ticket-IsCovered_example :
    IsCovered cancelled 200 500 × (300 ≡ min 300 500) × (200 + 300 ≡ 500)
cancel_withdraw_ticket-IsCovered_example =
    cancel_withdraw_ticket-IsCovered ⦃n = exact⦄ 0 fresh cancelled ticket ticket_rest 300 300 500
      refl cancel_run

abbrev paid : Reserve
paid = record fresh {
  last_update = mark_stale fresh.last_update;
  liquidity = record fresh.liquidity { total_available_amount = 999_376 };
  collateral = record fresh.collateral { mint_total_supply = 1_199_500 };
  config = record fresh.config {
    deposit_withdrawal_cap = record hourly { current_total = pos 924 };
  };
  withdraw_queue = record {
    queued_collateral_amount = 500;
    next_issued_ticket_sequence_number = 1;
    next_withdrawable_ticket_sequence_number = 1;
  };
}

abbrev empty : WithdrawTicket
empty = record ticket { queued_collateral_amount = 0 }

withdraw_run :
    withdraw_queued_liquidity ⦃n = exact⦄ 0 fresh ticket 4_000 5_010 ≡ ok (paid, empty, (500, 624))
unfolding withdraw_queued_liquidity dequeue check_min_withdrawn_queued_liquidity_value
    collateral_exchange_rate total_supply exchange_rate collateral_to_liquidity
    fraction_collateral_to_liquidity big_mul big_div_by_int fraction_of_big to_floor
    total_redeemable_collateral_amount liquidity_to_collateral_ceil
    fraction_liquidity_to_collateral_ceil big_mul_by_int big_div_ceil to_ceil
    liquidity_to_collateral liquidity_to_collateral_fraction big_from_num big_div panicking_shl
    try_to_floor redeem_reserve_collateral is_stale slots_elapsed redeem_collateral
    withdraw_including_queued burn refresh_reserve_limit_timestamps
    update_deposit_limit_crossed_timestamp update_borrow_limit_crossed_timestamp
    deposit_limit_crossed borrow_limit_crossed count_withdrawal add_to_withdrawal_accum
    check_and_update_withdrawal_caps roll_interval check_capacity update_counter
    remaining_withdrawal_caps_amount check_last_interval_elapsed reset_current_interval_and_counter
    mark_stale ◌+ℤ◌ ◌-ℤ◌
withdraw_run = refl

withdraw_queued_liquidity-IsCovered_example :
    IsCovered paid 0 500
    × (0 + 500 ≡ 500)
    × (paid.withdraw_queue.next_withdrawable_ticket_sequence_number
        ≡ fresh.withdraw_queue.next_withdrawable_ticket_sequence_number + (if 0 == 0 then 1 else 0))
withdraw_queued_liquidity-IsCovered_example =
    withdraw_queued_liquidity-IsCovered ⦃n = exact⦄ 0 fresh paid ticket empty 4_000 5_010 500 624
      500 refl withdraw_run

-- Two tickets: the first is served, 300 of the second are cancelled, and a third is issued.
abbrev second : WithdrawTicket
second = record { sequence_number = 1; owner = 8; reserve = 7; queued_collateral_amount = 500 }

abbrev queue_of : (amount issued withdrawable : ℕ) → WithdrawQueue
queue_of amount issued withdrawable = record {
  queued_collateral_amount = amount;
  next_issued_ticket_sequence_number = issued;
  next_withdrawable_ticket_sequence_number = withdrawable;
}

abbrev two : Reserve
two = record fresh { withdraw_queue = queue_of 1_000 2 0 }

abbrev one_left : Reserve
one_left = record paid { withdraw_queue = queue_of 500 2 1 }

abbrev less_left : Reserve
less_left = record paid { withdraw_queue = queue_of 200 2 1 }

abbrev one_more : Reserve
one_more = record paid { withdraw_queue = queue_of 260 3 1 }

abbrev second_rest : WithdrawTicket
second_rest = record second { queued_collateral_amount = 200 }

serve_two :
    withdraw_queued_liquidity ⦃n = exact⦄ 0 two ticket 4_000 5_010
    ≡ ok (one_left, empty, (500, 624))
unfolding withdraw_queued_liquidity dequeue check_min_withdrawn_queued_liquidity_value
    collateral_exchange_rate total_supply exchange_rate collateral_to_liquidity
    fraction_collateral_to_liquidity big_mul big_div_by_int fraction_of_big to_floor
    total_redeemable_collateral_amount liquidity_to_collateral_ceil
    fraction_liquidity_to_collateral_ceil big_mul_by_int big_div_ceil to_ceil
    liquidity_to_collateral liquidity_to_collateral_fraction big_from_num big_div panicking_shl
    try_to_floor redeem_reserve_collateral is_stale slots_elapsed redeem_collateral
    withdraw_including_queued burn refresh_reserve_limit_timestamps
    update_deposit_limit_crossed_timestamp update_borrow_limit_crossed_timestamp
    deposit_limit_crossed borrow_limit_crossed count_withdrawal add_to_withdrawal_accum
    check_and_update_withdrawal_caps roll_interval check_capacity update_counter
    remaining_withdrawal_caps_amount check_last_interval_elapsed reset_current_interval_and_counter
    mark_stale ◌+ℤ◌ ◌-ℤ◌
serve_two = refl

cancel_one :
    cancel_withdraw_ticket ⦃n = exact⦄ 0 one_left second 300 ≡ ok (less_left, second_rest, 300)
unfolding cancel_withdraw_ticket dequeue check_min_withdraw_ticket_value collateral_exchange_rate
    total_supply exchange_rate collateral_to_liquidity fraction_collateral_to_liquidity big_mul
    big_div_by_int fraction_of_big to_floor liquidity_amount_to_market_value mint_factor_sf ten_pow
    full_mul_int_ratio
cancel_one = refl

enqueue_one : enqueue_to_withdraw ⦃n = exact⦄ 0 less_left 60 ≡ ok (one_more, 2)
unfolding enqueue_to_withdraw enqueue check_min_withdraw_ticket_value collateral_exchange_rate
    total_supply exchange_rate collateral_to_liquidity fraction_collateral_to_liquidity big_mul
    big_div_by_int fraction_of_big to_floor liquidity_amount_to_market_value mint_factor_sf ten_pow
    full_mul_int_ratio
enqueue_one = refl

queue_run :
    QueueRun ⦃n = exact⦄ two (ticket ∷ second ∷ []) one_more (second_rest ∷ ticket_of 2 9 7 60 ∷ [])
queue_run =
    enqueues 0 60 2 9 7
      (cancels 0 0 300 300 (serves 0 0 4_000 5_010 500 624 rest refl refl serve_two) refl
        cancel_one)
      enqueue_one

QueueRun-IsQueueOf_example :
    IsQueueOf one_more.withdraw_queue (second_rest ∷ ticket_of 2 9 7 60 ∷ [])
QueueRun-IsQueueOf_example = QueueRun-IsQueueOf ⦃n = exact⦄ (refl, (refl, (refl, refl))) queue_run
