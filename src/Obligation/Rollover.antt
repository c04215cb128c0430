-- ===== src/Obligation/Rollover.antt =====
-- What an owner lets be done with a borrow whose term ends
-- (`FixedTermBorrowRolloverConfig` of klend/programs/klend/src/state/obligation.rs).
use solana_auditor_skill.Prelude.{
  ℕ, ◌≤◌, ◌<◌, ◌≡◌, ◌↔◌, ◌==◌, ltb, Option, some, none, if◌then◌else◌, arith, List, [], ◌∷◌, max,
}
use solana_auditor_skill.Outcome.{Outcome, ok, err, ◌>>◌, refuse_if}
use solana_auditor_skill.Errors.{
  obligation_borrow_rollover_not_enabled_by_owner,
  obligation_borrow_rollover_target_reserve_mismatch,
}
use solana_auditor_skill.RateCurve.{CurvePoint}
use solana_auditor_skill.Reserve.Types.{ReserveConfig}
use solana_auditor_skill.Reserve.Queries.{get_debt_term_seconds}
use solana_auditor_skill.Obligation.Types.{FixedTermBorrowRolloverConfig, BorrowOrder}

pub data RolloverMode : Type 0 where
  from_fixed_to_fixed_term from_fixed_to_open_term from_open_to_fixed_term : RolloverMode

-- The greatest rate of the points; a curve has at least one.
abbrev pub greatest_rate : List CurvePoint → ℕ
greatest_rate [] = 0
greatest_rate (p ∷ ps) = max p.borrow_rate_bps (greatest_rate ps)

-- `ReserveConfig::max_borrow_rate_bps`
unfoldable pub max_borrow_rate_bps : ReserveConfig → ℕ
max_borrow_rate_bps c = greatest_rate c.borrow_rate_curve.points

-- The tests on a target with a term, which both ways of rolling over make.
unfoldable pub check_fixed_term_target :
    FixedTermBorrowRolloverConfig → ReserveConfig → ℕ → Outcome (Unit {0})
check_fixed_term_target r target target_debt_term_seconds = do
  refuse_if (ltb r.max_borrow_rate_bps (max_borrow_rate_bps target))
      obligation_borrow_rollover_target_reserve_mismatch
  refuse_if (r.min_debt_term_seconds == 0) obligation_borrow_rollover_target_reserve_mismatch
  refuse_if (ltb target_debt_term_seconds r.min_debt_term_seconds)
      obligation_borrow_rollover_target_reserve_mismatch

unfoldable pub resolve_rollover_from_fixed_term_mode :
    FixedTermBorrowRolloverConfig → ReserveConfig → Outcome RolloverMode
unfolding check_fixed_term_target
resolve_rollover_from_fixed_term_mode r target = do
  refuse_if (r.auto_rollover_enabled == 0) obligation_borrow_rollover_not_enabled_by_owner
  elim (get_debt_term_seconds target) [
    | none ↦
        if r.open_term_allowed == 0
        then err obligation_borrow_rollover_target_reserve_mismatch
        else ok from_fixed_to_open_term
    | some secs ↦ check_fixed_term_target r target secs >> ok from_fixed_to_fixed_term
  ]

unfoldable pub check_migration_to_fixed_term_possible :
    FixedTermBorrowRolloverConfig → ReserveConfig → Outcome (Unit {0})
unfolding check_fixed_term_target
check_migration_to_fixed_term_possible r target = do
  refuse_if (r.migration_to_fixed_enabled == 0) obligation_borrow_rollover_not_enabled_by_owner
  elim (get_debt_term_seconds target) [
    | none ↦ err obligation_borrow_rollover_target_reserve_mismatch
    | some secs ↦ check_fixed_term_target r target secs
  ]

unfoldable pub resolve_rollover_mode :
    FixedTermBorrowRolloverConfig → (source target : ReserveConfig) → Outcome RolloverMode
unfolding resolve_rollover_from_fixed_term_mode check_migration_to_fixed_term_possible
resolve_rollover_mode r source target = elim (get_debt_term_seconds source) [
  | some secs ↦ resolve_rollover_from_fixed_term_mode r target
  | none ↦ check_migration_to_fixed_term_possible r target >> ok from_open_to_fixed_term
]

-- `BorrowOrder::get_rollover_config_for_filled_borrow`
unfoldable pub get_rollover_config_for_filled_borrow :
    BorrowOrder → Option FixedTermBorrowRolloverConfig
get_rollover_config_for_filled_borrow b =
    if b.enable_auto_rollover_on_filled_borrows == 0
    then none
    else some (record {
      auto_rollover_enabled = 1;
      open_term_allowed = 1;
      migration_to_fixed_enabled = if b.min_debt_term_seconds == 0 then 0 else 1;
      max_borrow_rate_bps = b.max_borrow_rate_bps;
      min_debt_term_seconds = b.min_debt_term_seconds;
    })

-- The owner's limits on a target with a term: a rate of at most the owner's, and a term of at least the
-- owner's, which is not zero.
abbrev pub IsWithinLimits : FixedTermBorrowRolloverConfig → ReserveConfig → Type 0
IsWithinLimits r target =
    (max_borrow_rate_bps target ≤ r.max_borrow_rate_bps)
    × (0 < r.min_debt_term_seconds)
    × (r.min_debt_term_seconds ≤ target.debt_term_seconds)

-- What the owner has allowed, for each of the ways.
abbrev pub IsAllowed :
    FixedTermBorrowRolloverConfig → (source target : ReserveConfig) → RolloverMode → Type 0
IsAllowed r source target from_fixed_to_fixed_term =
    (0 < source.debt_term_seconds)
    × (0 < target.debt_term_seconds)
    × (0 < r.auto_rollover_enabled)
    × IsWithinLimits r target
IsAllowed r source target from_fixed_to_open_term =
    (0 < source.debt_term_seconds)
    × (target.debt_term_seconds ≡ 0)
    × (0 < r.auto_rollover_enabled)
    × (0 < r.open_term_allowed)
IsAllowed r source target from_open_to_fixed_term =
    (source.debt_term_seconds ≡ 0)
    × (0 < target.debt_term_seconds)
    × (0 < r.migration_to_fixed_enabled)
    × IsWithinLimits r target

-- A borrow is rolled over in some way exactly where its owner's settings allow that way, between a
-- source and a target with and without a term as the way says.
pub resolve_rollover_mode_iff :
    (r : FixedTermBorrowRolloverConfig) (source target : ReserveConfig) (mode : RolloverMode)
    → (resolve_rollover_mode r source target ≡ ok mode) ↔ IsAllowed r source target mode
unfolding resolve_rollover_mode resolve_rollover_from_fixed_term_mode
    check_migration_to_fixed_term_possible check_fixed_term_target
resolve_rollover_mode_iff r source target from_fixed_to_fixed_term = ground arith
resolve_rollover_mode_iff r source target from_fixed_to_open_term = ground arith
resolve_rollover_mode_iff r source target from_open_to_fixed_term = ground arith
