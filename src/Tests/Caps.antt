-- ===== src/Tests/Caps.antt =====
-- Withdrawal caps.
use solana_auditor_skill.Prelude.{◌≡◌, refl, arith}
use solana_auditor_skill.Prelude.Int.{pos, ◌+ℤ◌, ◌-ℤ◌}
use solana_auditor_skill.Outcome.{ok}
use solana_auditor_skill.WithdrawalCaps.{
  WithdrawalCaps, add_to_withdrawal_accum, sub_from_withdrawal_accum, roll_interval, update_counter,
  check_capacity, remaining_withdrawal_caps_amount,
}
use solana_auditor_skill.WithdrawalCaps.Limit.{add_outcome, sub_outcome}
use solana_auditor_skill.WithdrawalCaps.Runs.{CapRun, here, next, added, IsWithin, CapRun-IsWithin}
use solana_auditor_skill.Tests.Samples.{hourly}

add_outcome_example :
    add_to_withdrawal_accum hourly 700 5_010 ≡ ok (record hourly { current_total = pos 1_000 })
unfolding ◌-ℤ◌ ◌+ℤ◌
add_outcome_example =
    add_outcome hourly 5_010 1_000 (λ e. omega arith) refl (omega arith) refl 700 (omega arith)
      (omega arith)

sub_outcome_example :
    sub_from_withdrawal_accum hourly 100 5_010 ≡ ok (record hourly { current_total = pos 200 })
unfolding ◌-ℤ◌
sub_outcome_example =
    sub_outcome hourly 5_010 (λ e. omega arith) refl 100 (omega arith) (omega arith) refl

hourly-IsWithin : IsWithin 1_000 hourly
hourly-IsWithin = record {
  active = λ e. omega arith;
  capacity = refl;
  capacity_fits = omega arith;
  total_fits = refl;
  within = ground arith;
}

-- 700 leave, which uses the cap up; an hour later 900 may leave again.
full : WithdrawalCaps
full = record hourly { current_total = pos 1_000 }

later : WithdrawalCaps
later = record hourly { current_total = pos 900; last_interval_start_timestamp = 8_600 }

hourly-run : CapRun hourly later
unfolding add_to_withdrawal_accum roll_interval update_counter check_capacity
    remaining_withdrawal_caps_amount ◌-ℤ◌ ◌+ℤ◌ later full
hourly-run = next {d = full} (next here (added 700 5_010 refl)) (added 900 8_600 refl)

CapRun-IsWithin_example : IsWithin 1_000 later
CapRun-IsWithin_example = CapRun-IsWithin hourly-IsWithin hourly-run
