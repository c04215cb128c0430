-- ===== src/Tests/Obligations.antt =====
-- Ownership, interest and rollover of obligations.
use solana_auditor_skill.Prelude.{◌+◌, ◌*◌, ◌/◌, ◌≤◌, ◌≡◌, ◌↔◌, refl, ap, arith, [], ◌∷◌}
use solana_auditor_skill.Outcome.{ok, ◌>>=◌}
use solana_auditor_skill.Numerics.{one}
use solana_auditor_skill.Numerics.Exact.{exact, exact-IsDocumented}
use solana_auditor_skill.Obligation.Types.{
  Obligation, ObligationLiquidity, new_liquidity, FixedTermBorrowRolloverConfig, is_no_borrow_order,
}
use solana_auditor_skill.Obligation.Ownership.Runs.{
  Run, proposed, approved_by, accepted, Granted, Run-IsGranted, transfer_possible,
}
use solana_auditor_skill.Obligation.Debt.{accrue_interest}
use solana_auditor_skill.Obligation.Debt.Accrual.{accrue_interest-steps}
use solana_auditor_skill.Obligation.Rollover.{
  from_fixed_to_fixed_term, resolve_rollover_mode, resolve_rollover_mode_iff, IsAllowed,
}
use solana_auditor_skill.Obligation.Ownership.{initiate, approve, accept}
use solana_auditor_skill.Reserve.Types.{ReserveConfig}
use solana_auditor_skill.Tests.Samples.{backed, settings}

transfer_run :
    (o' : Obligation) × Run 5 backed (accepted 21 ∷ approved_by 5 ∷ proposed 20 21 ∷ []) o'
    × (o' ≡ record backed { owner = 21; pending_owner = 0; ownership_transfer_state = 0 })
unfolding is_no_borrow_order
transfer_run =
    let (o1, o2, o', e1, e2, e3, run, done) =
      transfer_possible 5 21 backed 100 200 300 refl refl (λ e. ground arith) (λ e. ground arith) in
    (o', run, done)

transfer_possible_example :
    (o1 o2 o' : Obligation) × (initiate backed 20 22 (ok tt) 100 ≡ ok o1)
    × (approve o1 5 5 22 200 ≡ ok o2)
    × (accept o2 22 (ok tt) 300 ≡ ok o')
    × Run 5 backed (accepted 22 ∷ approved_by 5 ∷ proposed 20 22 ∷ []) o'
    × (o' ≡ record backed { owner = 22; pending_owner = 0; ownership_transfer_state = 0 })
unfolding is_no_borrow_order
transfer_possible_example =
    transfer_possible 5 22 backed 100 200 300 refl refl (λ e. ground arith) (λ e. ground arith)

Run-IsGranted_example :
    Granted 5 transfer_run.0.owner (accepted 21 ∷ approved_by 5 ∷ proposed 20 21 ∷ [])
Run-IsGranted_example = Run-IsGranted refl transfer_run.1 (λ e.
    let changed : transfer_run.0.owner ≡ 21 = ap (λ (x : Obligation). x.owner) transfer_run.2 in
    ground arith)

abbrev owing : ObligationLiquidity
owing = record (new_liquidity 88 one) { borrowed_amount_sf = 250_000 * one }

accrue_interest-steps_example :
    (once twice : ObligationLiquidity) × (accrue_interest ⦃n = exact⦄ owing (one * 3 / 2) ≡ ok once)
    × ((accrue_interest ⦃n = exact⦄ owing (one * 5 / 4) >>= λ m.
          accrue_interest ⦃n = exact⦄ m (one * 3 / 2))
        ≡ ok twice)
    × (250_000 * one ≤ twice.borrowed_amount_sf)
    × (twice.borrowed_amount_sf ≤ once.borrowed_amount_sf)
    × (once.borrowed_amount_sf ≤ twice.borrowed_amount_sf + one * 3 / 2 / (one * 5 / 4) + 1)
    × (twice.cumulative_borrow_rate_bsf ≡ one * 3 / 2)
accrue_interest-steps_example =
    accrue_interest-steps ⦃n = exact⦄ exact-IsDocumented owing (one * 5 / 4) (one * 3 / 2)
      (omega arith) (omega arith) (omega arith) (omega arith) (omega arith)

-- At most 80% and for at least a day; the target asks 80% and has a term of two days.
abbrev wanted : FixedTermBorrowRolloverConfig
wanted = record {
  auto_rollover_enabled = 1;
  open_term_allowed = 0;
  migration_to_fixed_enabled = 0;
  max_borrow_rate_bps = 8_000;
  min_debt_term_seconds = 86_400;
}

abbrev two_days : ReserveConfig
two_days = record settings { debt_term_seconds = 172_800 }

resolve_rollover_mode_iff_example :
    (resolve_rollover_mode wanted two_days two_days ≡ ok from_fixed_to_fixed_term)
    ↔ IsAllowed wanted two_days two_days from_fixed_to_fixed_term
resolve_rollover_mode_iff_example =
    resolve_rollover_mode_iff wanted two_days two_days from_fixed_to_fixed_term
