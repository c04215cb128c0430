-- ===== src/WithdrawalCaps/Runs.antt =====
-- Any sequence of accepted additions to and removals from a withdrawal counter.
use solana_auditor_skill.Prelude.{ℕ, ◌≤◌, ◌≡◌, ◌≢◌, true, arith}
use solana_auditor_skill.Prelude.Int.{ℤ, pos, ◌+ℤ◌, ◌-ℤ◌, ◌≤ℤ◌, int_laws}
use solana_auditor_skill.Outcome.{ok}
use solana_auditor_skill.WithdrawalCaps.{
  WithdrawalCaps, in_i64, max_i64, check_capacity, roll_interval, update_counter,
  add_to_withdrawal_accum, sub_from_withdrawal_accum,
}
use solana_auditor_skill.WithdrawalCaps.Limit.{counted, left, add_outcome, sum_fits, left-within}

pub data CapStep (c : WithdrawalCaps) : WithdrawalCaps → Type 0 where
  added :
      {c' : WithdrawalCaps} (amount t : ℕ)
      → add_to_withdrawal_accum c amount t ≡ ok c'
      → CapStep c c'
  removed :
      {c' : WithdrawalCaps} (amount t : ℕ)
      → sub_from_withdrawal_accum c amount t ≡ ok c'
      → CapStep c c'

pub data CapRun (c : WithdrawalCaps) : WithdrawalCaps → Type 0 where
  here : CapRun c c
  next : {d e : WithdrawalCaps} → CapRun c d → CapStep d e → CapRun c e

-- An active cap of capacity `k`, whose counter is within it.
pub record IsWithin (k : ℕ) (c : WithdrawalCaps) : Type 0 where
  pub active : c.config_interval_length_seconds ≢ 0
  pub capacity : c.config_capacity ≡ pos k
  pub capacity_fits : k ≤ max_i64
  pub total_fits : in_i64 c.current_total ≡ true
  pub within : c.current_total ≤ℤ pos k

-- An accepted addition asked for an `i64` and at a time that is not before the interval.
added_needs :
    (c : WithdrawalCaps) (amount t : ℕ) {c' : WithdrawalCaps}
    → c.config_interval_length_seconds ≢ 0
    → add_to_withdrawal_accum c amount t ≡ ok c'
    → (amount ≤ max_i64) × (c.last_interval_start_timestamp ≤ t)
unfolding add_to_withdrawal_accum roll_interval update_counter
added_needs c amount t a e = ground arith

added_effect :
    (k : ℕ) (c : WithdrawalCaps) (amount t : ℕ) {c' : WithdrawalCaps}
    → IsWithin k c
    → add_to_withdrawal_accum c amount t ≡ ok c'
    → (amount ≤ left k (counted c t))
      × (c'.current_total ≡ counted c t +ℤ pos amount)
      × (c'.config_capacity ≡ c.config_capacity)
      × (c'.config_interval_length_seconds ≡ c.config_interval_length_seconds)
added_effect k c amount t w e =
    let (fits, now) = added_needs c amount t w.active e in
    ground
      (arith, add_outcome c t k w.active w.capacity w.capacity_fits w.total_fits amount fits now)

removed_effect :
    (c : WithdrawalCaps) (amount t : ℕ) {c' : WithdrawalCaps}
    → c.config_interval_length_seconds ≢ 0
    → sub_from_withdrawal_accum c amount t ≡ ok c'
    → (c'.current_total ≡ counted c t -ℤ pos amount)
      × (in_i64 c'.current_total ≡ true)
      × (c'.config_capacity ≡ c.config_capacity)
      × (c'.config_interval_length_seconds ≡ c.config_interval_length_seconds)
unfolding sub_from_withdrawal_accum roll_interval update_counter check_capacity
removed_effect c amount t a e = ground arith

counted-IsWithin :
    (k : ℕ) (c : WithdrawalCaps) (t : ℕ)
    → IsWithin k c
    → (counted c t ≤ℤ pos k) × (in_i64 (counted c t) ≡ true)
counted-IsWithin k c t w = ground arith

sub_mono : (k : ℕ) (s : ℤ) (amount : ℕ) → s ≤ℤ pos k → s -ℤ pos amount ≤ℤ pos k
sub_mono k s amount h = omega int_laws

CapStep-IsWithin : {k : ℕ} {c c' : WithdrawalCaps} → CapStep c c' → IsWithin k c → IsWithin k c'
CapStep-IsWithin {k} {c} (added amount t e) w =
    let (asked, total, capacity, length) = added_effect k c amount t w e in
    let (low, fits) = counted-IsWithin k c t w in
    record {
      active = rw length w.active;
      capacity = rw capacity w.capacity;
      capacity_fits = w.capacity_fits;
      total_fits = rw total (sum_fits (counted c t) amount k fits w.capacity_fits asked);
      within = rw total (left-within (counted c t) amount k low asked);
    }
CapStep-IsWithin {k} {c} (removed amount t e) w =
    let (total, fits, capacity, length) = removed_effect c amount t w.active e in
    let (low, _) = counted-IsWithin k c t w in
    record {
      active = rw length w.active;
      capacity = rw capacity w.capacity;
      capacity_fits = w.capacity_fits;
      total_fits = fits;
      within = rw total (sub_mono k (counted c t) amount low);
    }

-- Whatever additions and removals are accepted, at whatever times, the counter of an active cap
-- that is within its capacity never passes it, and the capacity and the activity of the cap stay.
pub CapRun-IsWithin : {k : ℕ} {c c' : WithdrawalCaps} → IsWithin k c → CapRun c c' → IsWithin k c'
CapRun-IsWithin w here = w
CapRun-IsWithin w (next r s) = CapStep-IsWithin s (CapRun-IsWithin w r)
