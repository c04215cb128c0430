-- ===== src/WithdrawalCaps.antt =====
-- klend/programs/klend/src/lending_market/withdrawal_cap_operations.rs and the struct
-- `WithdrawalCaps` of state/reserve.rs: how much may leave a reserve in an interval of time. The two
-- `i64` fields are integers between -2 ^ 63 and 2 ^ 63 - 1.
pub mod Runs
pub mod Limit
use solana_auditor_skill.Prelude.{
  ℕ, ◌-◌, ◌^◌, ◌<◌, ◌≤◌, Bool, true, false, Option, some, none, ltb, leb, ◌==◌, if◌then◌else◌,
}
use solana_auditor_skill.Prelude.Int.{ℤ, pos, negsuc, pos_part, neg_part, ◌+ℤ◌, ◌-ℤ◌, leb_ℤ}
use solana_auditor_skill.Outcome.{Outcome, ok, err, panic, ◌>>=◌, ◌>>◌, unwrap, ok_or, refuse_if}
use solana_auditor_skill.Errors.{
  math_overflow, integer_overflow, last_timestamp_greater_than_current, withdrawal_cap_reached,
}

pub record WithdrawalCaps : Type 0 where
  pub config_capacity : ℤ
  pub current_total : ℤ
  pub last_interval_start_timestamp : ℕ
  pub config_interval_length_seconds : ℕ

abbrev pub max_i64 : ℕ
max_i64 = 2 ^ 63 - 1

abbrev pub max_u64 : ℕ
max_u64 = 2 ^ 64 - 1

-- Whether an integer is an `i64`.
abbrev pub in_i64 : ℤ → Bool
in_i64 (pos a) = leb a max_i64
in_i64 (negsuc a) = leb a max_i64

-- `i64::try_from` of a `u64`.
abbrev pub to_i64 : ℕ → Option ℤ
to_i64 a = if leb a max_i64 then some (pos a) else none

abbrev pub keep_i64 : ℤ → Option ℤ
keep_i64 s = if in_i64 s then some s else none

abbrev pub saturate_i64 : ℤ → ℤ
saturate_i64 (pos a) = if leb a max_i64 then pos a else pos max_i64
saturate_i64 (negsuc a) = if leb a max_i64 then negsuc a else negsuc max_i64

pub data WithdrawalCapAction : Type 0 where
  add remove : WithdrawalCapAction

pub data WithdrawalCapOverflowAction : Type 0 where
  saturating_overflow error_on_overflow : WithdrawalCapOverflowAction

unfoldable pub update_counter :
    WithdrawalCaps → ℕ → WithdrawalCapAction → WithdrawalCapOverflowAction → Outcome WithdrawalCaps
update_counter caps requested_amount add saturating_overflow = do
  amount ← ok_or (to_i64 requested_amount) math_overflow
  ok (record caps { current_total = saturate_i64 (caps.current_total +ℤ amount) })
update_counter caps requested_amount add error_on_overflow = do
  amount ← ok_or (to_i64 requested_amount) integer_overflow
  total ← ok_or (keep_i64 (caps.current_total +ℤ amount)) math_overflow
  ok (record caps { current_total = total })
update_counter caps requested_amount remove saturating_overflow = do
  amount ← ok_or (to_i64 requested_amount) math_overflow
  ok (record caps { current_total = saturate_i64 (caps.current_total -ℤ amount) })
update_counter caps requested_amount remove error_on_overflow = do
  amount ← ok_or (to_i64 requested_amount) integer_overflow
  total ← ok_or (keep_i64 (caps.current_total -ℤ amount)) math_overflow
  ok (record caps { current_total = total })

unfoldable pub check_last_interval_elapsed : WithdrawalCaps → ℕ → Outcome Bool
check_last_interval_elapsed caps curr_timestamp = do
  refuse_if (ltb curr_timestamp caps.last_interval_start_timestamp)
      last_timestamp_greater_than_current
  ok (leb caps.config_interval_length_seconds (curr_timestamp - caps.last_interval_start_timestamp))

unfoldable pub reset_current_interval_and_counter : WithdrawalCaps → ℕ → WithdrawalCaps
reset_current_interval_and_counter caps curr_timestamp = record caps {
  current_total = pos 0;
  last_interval_start_timestamp = curr_timestamp;
}

-- `u64::try_from` of an `i128`.
abbrev pub u64_of : ℤ → Option ℕ
u64_of (pos a) = if leb a max_u64 then some a else none
u64_of (negsuc a) = none

unfoldable pub remaining_withdrawal_caps_amount : WithdrawalCaps → ℕ → Outcome ℕ
remaining_withdrawal_caps_amount caps timestamp =
    let time_spent = timestamp - caps.last_interval_start_timestamp in
    let interval_elapsed = leb caps.config_interval_length_seconds time_spent in
    let current_total = if interval_elapsed then pos 0 else caps.current_total in
    if caps.config_interval_length_seconds == 0
    then ok max_u64
    else if ltb 0 (neg_part caps.config_capacity)
    then ok 0
    else if leb_ℤ current_total caps.config_capacity
    then unwrap (u64_of (caps.config_capacity -ℤ current_total))
    else ok 0

-- `requested_amount > remaining_withdrawal_caps_amount(..)`, which only an addition asks.
unfoldable pub check_capacity : WithdrawalCaps → ℕ → ℕ → WithdrawalCapAction → Outcome (Unit {0})
check_capacity caps requested_amount curr_timestamp add = do
  remaining ← remaining_withdrawal_caps_amount caps curr_timestamp
  refuse_if (ltb remaining requested_amount) withdrawal_cap_reached
check_capacity caps requested_amount curr_timestamp remove = ok tt

-- The counter at a time: empty if its interval has passed.
unfoldable pub roll_interval : WithdrawalCaps → ℕ → Outcome WithdrawalCaps
unfolding check_last_interval_elapsed reset_current_interval_and_counter
roll_interval caps curr_timestamp = do
  elapsed ← check_last_interval_elapsed caps curr_timestamp
  ok (if elapsed then reset_current_interval_and_counter caps curr_timestamp else caps)

unfoldable pub check_and_update_withdrawal_caps :
    WithdrawalCaps → ℕ → ℕ → WithdrawalCapAction → Outcome WithdrawalCaps
check_and_update_withdrawal_caps caps requested_amount curr_timestamp action =
    if caps.config_interval_length_seconds == 0
    then update_counter caps requested_amount action saturating_overflow
    else do
      rolled ← roll_interval caps curr_timestamp
      check_capacity rolled requested_amount curr_timestamp action
      update_counter rolled requested_amount action error_on_overflow

unfoldable pub add_to_withdrawal_accum : WithdrawalCaps → ℕ → ℕ → Outcome WithdrawalCaps
unfolding check_and_update_withdrawal_caps
add_to_withdrawal_accum caps requested_amount curr_timestamp =
    check_and_update_withdrawal_caps caps requested_amount curr_timestamp add

unfoldable pub sub_from_withdrawal_accum : WithdrawalCaps → ℕ → ℕ → Outcome WithdrawalCaps
unfolding check_and_update_withdrawal_caps
sub_from_withdrawal_accum caps requested_amount curr_timestamp =
    check_and_update_withdrawal_caps caps requested_amount curr_timestamp remove
