-- ===== src/WithdrawalCaps/Limit.antt =====
-- The limit that the caps enforce on what leaves in one interval.
use solana_auditor_skill.Prelude.{ℕ, ◌-◌, ◌≤◌, ◌≡◌, ◌≢◌, true, arith, leb, if◌then◌else◌}
use solana_auditor_skill.Prelude.Int.{ℤ, pos, pos_part, ◌+ℤ◌, ◌-ℤ◌, ◌≤ℤ◌}
use solana_auditor_skill.Outcome.{ok, err}
use solana_auditor_skill.Errors.{withdrawal_cap_reached}
use solana_auditor_skill.WithdrawalCaps.{
  WithdrawalCaps, in_i64, max_i64, remaining_withdrawal_caps_amount, check_capacity, roll_interval,
  update_counter, add_to_withdrawal_accum, sub_from_withdrawal_accum,
}

-- What counts at a time: nothing, if the interval has passed.
abbrev pub counted : WithdrawalCaps → ℕ → ℤ
counted c t =
    if leb c.config_interval_length_seconds (t - c.last_interval_start_timestamp)
    then pos 0
    else c.current_total

-- The start of the interval at a time.
abbrev pub started : WithdrawalCaps → ℕ → ℕ
started c t =
    if leb c.config_interval_length_seconds (t - c.last_interval_start_timestamp)
    then t
    else c.last_interval_start_timestamp

abbrev pub left : ℕ → ℤ → ℕ
left k total = pos_part (pos k -ℤ total)

-- What remains can be added without leaving an `i64`.
pub sum_fits :
    (s : ℤ) (amount k : ℕ)
    → in_i64 s ≡ true
    → k ≤ max_i64
    → amount ≤ left k s
    → in_i64 (s +ℤ pos amount) ≡ true
unfolding ◌+ℤ◌ ◌-ℤ◌
sum_fits s amount k f small h = ground arith

module _ (c : WithdrawalCaps) (t : ℕ) (active : c.config_interval_length_seconds ≢ 0)
    (total : in_i64 c.current_total ≡ true) where
  counted_fits : in_i64 (counted c t) ≡ true
  counted_fits = ground arith

  rolled : WithdrawalCaps
  rolled = record c { current_total = counted c t; last_interval_start_timestamp = started c t }

  roll_lem : c.last_interval_start_timestamp ≤ t → roll_interval c t ≡ ok rolled
  unfolding roll_interval rolled
  roll_lem h = ground arith

  -- With an active cap of any capacity, whose counter is an `i64`, at a time that is not before
  -- the interval, an `i64` amount is taken off what counts, below zero if need be, if the
  -- difference is an `i64`, and the interval starts anew if the last one has passed.
  pub sub_outcome :
      (amount : ℕ)
      → amount ≤ max_i64
      → c.last_interval_start_timestamp ≤ t
      → in_i64 (counted c t -ℤ pos amount) ≡ true
      → sub_from_withdrawal_accum c amount t
        ≡ ok (record c {
          current_total = counted c t -ℤ pos amount;
          last_interval_start_timestamp = started c t;
        })
  unfolding sub_from_withdrawal_accum check_capacity update_counter rolled
  sub_outcome amount fits h range = rw (roll_lem h) (ground arith)

module _ (c : WithdrawalCaps) (t k : ℕ) (active : c.config_interval_length_seconds ≢ 0)
    (capacity : c.config_capacity ≡ pos k) (small : k ≤ max_i64)
    (total : in_i64 c.current_total ≡ true) where
  remaining_rolled :
      remaining_withdrawal_caps_amount (rolled c t active total) t ≡ ok (left k (counted c t))
  unfolding remaining_withdrawal_caps_amount rolled ◌-ℤ◌
  remaining_rolled = rw capacity (ground arith)

  -- With an active cap of non-negative capacity, at a time that is not before the interval, an
  -- amount that is an `i64` is accepted exactly when it is at most what remains; it is then added
  -- to what counts, and the interval starts anew if the last one has passed. Otherwise it is
  -- refused as `withdrawal_cap_reached`.
  pub add_outcome :
      (amount : ℕ)
      → amount ≤ max_i64
      → c.last_interval_start_timestamp ≤ t
      → add_to_withdrawal_accum c amount t ≡ (
          if leb amount (left k (counted c t))
          then ok (record c {
            current_total = counted c t +ℤ pos amount;
            last_interval_start_timestamp = started c t;
          })
          else err withdrawal_cap_reached)
  unfolding add_to_withdrawal_accum check_capacity update_counter rolled
  add_outcome amount fits h = rw (roll_lem c t active total h) (
      ground
        (arith, remaining_rolled, sum_fits (counted c t) amount k (counted_fits c t active total)))

pub left-within : (s : ℤ) (amount k : ℕ) → s ≤ℤ pos k → amount ≤ left k s → s +ℤ pos amount ≤ℤ pos k
unfolding ◌+ℤ◌ ◌-ℤ◌
left-within s amount k h p = ground arith
