-- ===== src/Lending/Refresh.antt =====
-- The refresh of an obligation's deposits, `refresh_obligation_deposits` of
-- klend/programs/klend/src/lending_market/lending_operations.rs. The accounts of the deposits' reserves
-- come in the order of the active deposits, each with its key.
pub mod Deposit
pub mod Totals
use solana_auditor_skill.Prelude.{
  ℕ, ◌+◌, ◌-◌, ◌==◌, Bool, true, false, ◌&&◌, ◌||◌, ltb, leb, Option, some, none, if◌then◌else◌,
  List, [], ◌∷◌, min,
}
use solana_auditor_skill.Outcome.{Outcome, ok, err, panic, ◌>>=◌, ◌>>◌, refuse_if, require, fit}
use solana_auditor_skill.Errors.{
  invalid_account_input, inconsistent_elevation_group, elevation_group_debt_reserve_as_collateral,
}
use solana_auditor_skill.Numerics.{Numerics}
use solana_auditor_skill.Fraction.{from_percent}
use solana_auditor_skill.LastUpdate.{PriceStatusFlags, all_checks}
use solana_auditor_skill.Reserve.Types.{Reserve, Pubkey}
use solana_auditor_skill.Obligation.Types.{Obligation, ObligationCollateral}
use solana_auditor_skill.Obligation.Queries.{is_active_collateral}
use solana_auditor_skill.Market.{LendingMarket, ElevationGroup, get_index}
use solana_auditor_skill.Lending.Checks.{
  contains_id, check_obligation_collateral_deposit_reserve, get_max_ltv_and_liquidation_threshold,
}
use solana_auditor_skill.Lending.Values.{calculate_obligation_collateral_market_value}
use solana_auditor_skill.Lending.Groups.{Accounts, lent_in_group, with_lent_in_group, with_tracked}

-- What the loop over the deposits sums up, `RefreshObligationDepositsResult`.
pub record RefreshObligationDepositsResult : Type 0 where
  pub lowest_deposit_max_ltv_pct : ℕ
  pub lowest_deposit_liquidation_ltv_threshold_pct : ℕ
  pub num_of_obsolete_reserves : ℕ
  pub deposited_value_f : ℕ
  pub allowed_borrow_value_f : ℕ
  pub unhealthy_borrow_value_f : ℕ
  pub prices_state : PriceStatusFlags
  pub borrowing_disabled : Bool

abbrev pub no_deposits : RefreshObligationDepositsResult
no_deposits = record {
  lowest_deposit_max_ltv_pct = 255;
  lowest_deposit_liquidation_ltv_threshold_pct = 255;
  num_of_obsolete_reserves = 0;
  deposited_value_f = 0;
  allowed_borrow_value_f = 0;
  unhealthy_borrow_value_f = 0;
  prices_state = all_checks;
  borrowing_disabled = false;
}

-- `&` of the flags.
abbrev pub both : PriceStatusFlags → PriceStatusFlags → PriceStatusFlags
both s m = record {
  price_loaded = s.price_loaded && m.price_loaded;
  price_age_checked = s.price_age_checked && m.price_age_checked;
  twap_checked = s.twap_checked && m.twap_checked;
  twap_age_checked = s.twap_age_checked && m.twap_age_checked;
  heuristic_checked = s.heuristic_checked && m.heuristic_checked;
  price_usage_allowed = s.price_usage_allowed && m.price_usage_allowed;
}

-- One for `ReserveStatus::Obsolete`; a byte past `Hidden` panics.
abbrev pub obsolete_count : Reserve → Outcome ℕ
obsolete_count r =
    if ltb 2 r.config.status then panic else ok (if r.config.status == 1 then 1 else 0)

-- No collateral outside of groups: that turns borrowing off.
abbrev pub disables_borrowing : Option (ElevationGroup × ℕ) → Reserve → Bool
disables_borrowing none r = ltb 0 r.config.disable_usage_as_coll_outside_emode
disables_borrowing (some g) r = false

-- The group's debt, booked against the deposit and its reserve in place of the former one.
unfoldable pub retrack :
    Option (ElevationGroup × ℕ)
    → ObligationCollateral
    → Pubkey
    → Reserve
    → Outcome (ObligationCollateral × Reserve)
retrack none c key r = ok (c, r)
retrack (some (g, debt_amount)) c key r = do
  index ← get_index g
  require (contains_id r.config.elevation_groups g.id) inconsistent_elevation_group
  refuse_if (key == g.debt_reserve) elevation_group_debt_reserve_as_collateral
  previous ← lent_in_group r index
  lent ←
      fit 64 (previous - c.borrowed_amount_against_this_collateral_in_elevation_group + debt_amount)
  ok (with_tracked c debt_amount, with_lent_in_group r index lent)

abbrev pub with_market_value : ObligationCollateral → ℕ → ObligationCollateral
with_market_value c value = record c { market_value_sf = value }

abbrev pub group_of : Option (ElevationGroup × ℕ) → Option ElevationGroup
group_of none = none
group_of (some (g, debt_amount)) = some g

module _ ⦃n : Numerics⦄ where
  -- A deposit of this value, with its ratios, added to the totals; `skip` is the value below which the
  -- deposit's threshold does not count for the lowest.
  unfoldable pub add_deposit :
      RefreshObligationDepositsResult
      → (value ltv threshold skip : ℕ) → Outcome RefreshObligationDepositsResult
  add_deposit t value ltv threshold skip = do
    least ← n.from_num skip
    deposited ← n.add t.deposited_value_f value
    max_ltv ← from_percent ltv
    allowed_part ← n.mul value max_ltv
    allowed ← n.add t.allowed_borrow_value_f allowed_part
    max_threshold ← from_percent threshold
    unhealthy_part ← n.mul value max_threshold
    unhealthy ← n.add t.unhealthy_borrow_value_f unhealthy_part
    ok (record t {
      lowest_deposit_liquidation_ltv_threshold_pct =
          if leb least value && ltb 0 threshold
          then min t.lowest_deposit_liquidation_ltv_threshold_pct threshold
          else t.lowest_deposit_liquidation_ltv_threshold_pct;
      lowest_deposit_max_ltv_pct = min t.lowest_deposit_max_ltv_pct ltv;
      deposited_value_f = deposited;
      allowed_borrow_value_f = allowed;
      unhealthy_borrow_value_f = unhealthy;
    })

  abbrev pub with_flags :
      RefreshObligationDepositsResult
      → (obsolete : ℕ) → Bool
      → PriceStatusFlags
      → RefreshObligationDepositsResult
  with_flags t obsolete disabled prices = record t {
    num_of_obsolete_reserves = t.num_of_obsolete_reserves + obsolete;
    prices_state = both t.prices_state prices;
    borrowing_disabled = t.borrowing_disabled || disabled;
  }

  -- The body of the loop, for a deposit and the account of its reserve.
  unfoldable pub refresh_deposit :
      LendingMarket
      → (slot : ℕ) → Option (ElevationGroup × ℕ)
      → RefreshObligationDepositsResult
      → ObligationCollateral
      → Pubkey × Reserve
      → Outcome (ObligationCollateral × (Pubkey × Reserve) × RefreshObligationDepositsResult)
  unfolding add_deposit
  refresh_deposit market slot debt t c (key, r) = do
    obsolete ← obsolete_count r
    check_obligation_collateral_deposit_reserve c r key slot
    tracked ← retrack debt c key r
    value ← calculate_obligation_collateral_market_value tracked.1 tracked.0
    let pcts = get_max_ltv_and_liquidation_threshold tracked.1 (group_of debt)
    added ← add_deposit t value pcts.0 pcts.1 market.min_value_skip_liquidation_ltv_checks
    ok (
      with_market_value tracked.0 value,
      (key, tracked.1),
      with_flags added obsolete (disables_borrowing debt r) r.last_update.price_status,
    )

  -- The loop; accounts that are left over stay as they are.
  unfoldable pub refresh_deposits :
      LendingMarket
      → (slot : ℕ) → Option (ElevationGroup × ℕ)
      → RefreshObligationDepositsResult
      → List ObligationCollateral
      → Accounts
      → Outcome (List ObligationCollateral × Accounts × RefreshObligationDepositsResult)
  unfolding refresh_deposit
  refresh_deposits market slot debt t [] accounts = ok ([], accounts, t)
  refresh_deposits market slot debt t (c ∷ cs) [] =
      if is_active_collateral c
      then err invalid_account_input
      else (refresh_deposits market slot debt t cs [] >>= λ rest. ok (c ∷ rest.0, rest.1, rest.2))
  refresh_deposits market slot debt t (c ∷ cs) (a ∷ accounts) =
      if is_active_collateral c
      then (refresh_deposit market slot debt t c a >>= λ done.
          refresh_deposits market slot debt done.2 cs accounts >>= λ rest.
          ok (done.0 ∷ rest.0, done.1 ∷ rest.1, rest.2))
      else (refresh_deposits market slot debt t cs (a ∷ accounts) >>= λ rest.
          ok (c ∷ rest.0, rest.1, rest.2))

  -- The group and what is owed in it come together.
  unfoldable pub refresh_obligation_deposits :
      LendingMarket
      → (slot : ℕ) → Option ElevationGroup
      → (borrowed_amount_in_elevation_group : Option ℕ) → Obligation
      → Accounts
      → Outcome (Obligation × Accounts × RefreshObligationDepositsResult)
  unfolding refresh_deposits
  refresh_obligation_deposits market slot none none o accounts = do
    done ← refresh_deposits market slot none no_deposits o.deposits accounts
    ok (record o { deposits = done.0 }, done.1, done.2)
  refresh_obligation_deposits market slot (some g) (some amount) o accounts = do
    done ← refresh_deposits market slot (some (g, amount)) no_deposits o.deposits accounts
    ok (record o { deposits = done.0 }, done.1, done.2)
  refresh_obligation_deposits market slot none (some amount) o accounts = panic
  refresh_obligation_deposits market slot (some g) none o accounts = panic
