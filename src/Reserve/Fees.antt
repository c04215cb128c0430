-- ===== src/Reserve/Fees.antt =====
-- `ReserveFees` of klend/programs/klend/src/state/reserve.rs: what a borrow or a flash loan costs, and
-- how the protocol and the referrer share it.
pub mod Shares
use solana_auditor_skill.Prelude.{
  ℕ, ◌+◌, ◌-◌, ◌*◌, ◌/◌, ◌^◌, Bool, true, false, ◌&&◌, ltb, leb, ◌==◌, if◌then◌else◌, max,
}
use solana_auditor_skill.Outcome.{Outcome, ok, err, panic, ◌>>=◌, ◌>>◌, refuse_if, sub_int}
use solana_auditor_skill.Errors.{borrow_too_small}
use solana_auditor_skill.Numerics.{Numerics, one}
use solana_auditor_skill.Fraction.{from_bps, to_floor, to_round}
use solana_auditor_skill.Reserve.Types.{ReserveFees, FeeCalculation, exclusive, inclusive}

module _ ⦃n : Numerics⦄ where
  -- The fee of an amount: on top of it, or contained in it.
  unfoldable pub origination_fee_amount : ℕ → ℕ → FeeCalculation → Outcome ℕ
  origination_fee_amount amount origination_fee_rate exclusive = n.mul amount origination_fee_rate
  origination_fee_amount amount origination_fee_rate inclusive = do
    contained ← n.div origination_fee_rate (← n.add origination_fee_rate one)
    n.mul amount contained

  unfoldable pub referral_part : ℕ → ℕ → ℕ → ℕ → Bool → Outcome ℕ
  referral_part origination_fee_f origination_fee referral_fee_rate referral_fee_bps assessed =
      if assessed
      then (if referral_fee_bps == 10_000
          then ok origination_fee
          else (n.mul origination_fee_f referral_fee_rate >>= λ referral_fee_f.
              to_floor 64 referral_fee_f))
      else ok 0

  -- The fees of the protocol and of the referrer.
  unfoldable pub calculate_fees : ℕ → ℕ → FeeCalculation → ℕ → Bool → Outcome (ℕ × ℕ)
  calculate_fees amount fee_sf fee_calculation referral_fee_bps has_referrer = do
    referral_fee_rate ← from_bps referral_fee_bps
    if ltb 0 fee_sf && ltb 0 amount
        then (do
          assessed_fee ← origination_fee_amount amount fee_sf fee_calculation
          let origination_fee_f = max assessed_fee one
          refuse_if (leb amount origination_fee_f) borrow_too_small
          origination_fee ← to_round 64 origination_fee_f
          let assessed = ltb 0 referral_fee_rate && has_referrer
          referral_fee ←
              referral_part origination_fee_f origination_fee referral_fee_rate referral_fee_bps
                assessed
          protocol_fee ← sub_int origination_fee referral_fee
          ok (protocol_fee, referral_fee))
        else ok (0, 0)

  unfoldable pub calculate_borrow_fees :
      ReserveFees → ℕ → FeeCalculation → ℕ → Bool → Outcome (ℕ × ℕ)
  calculate_borrow_fees f borrow_amount fee_calculation referral_fee_bps has_referrer =
      calculate_fees borrow_amount f.origination_fee_sf fee_calculation referral_fee_bps
        has_referrer

  unfoldable pub calculate_flash_loan_fees : ReserveFees → ℕ → ℕ → Bool → Outcome (ℕ × ℕ)
  calculate_flash_loan_fees f flash_loan_amount_f referral_fee_bps has_referrer =
      calculate_fees flash_loan_amount_f f.flash_loan_fee_sf exclusive referral_fee_bps has_referrer
