-- ===== src/Lending/Refresh/Totals.antt =====
-- What the totals of a refresh of deposits are: the sum of the values that the deposits are given, and
-- the two bounds on borrowing in their order.
use native.Mathlib.Nat.{le_refl}
use solana_auditor_skill.Prelude.{
  ℕ, ◌+◌, ◌≤◌, ◌≡◌, if◌then◌else◌, true, false, arith, Option, some, none, List, [], ◌∷◌, refl, sym,
  subst, ap, Bool-cases, inl, inr, All,
}
use solana_auditor_skill.Outcome.{ok, err, ◌>>=◌, bind_ok, ok_inj}
use solana_auditor_skill.Errors.{invalid_account_input}
use solana_auditor_skill.Numerics.{Numerics, IsDocumented}
use solana_auditor_skill.Numerics.Exact.{exact, exact_unique}
use solana_auditor_skill.Reserve.Types.{Pubkey}
use solana_auditor_skill.Obligation.Types.{Obligation, ObligationCollateral}
use solana_auditor_skill.Obligation.Queries.{is_active_collateral}
use solana_auditor_skill.Market.{LendingMarket, ElevationGroup}
use solana_auditor_skill.Lending.Checks.{get_max_ltv_and_liquidation_threshold}
use solana_auditor_skill.Lending.Groups.{Accounts}
use solana_auditor_skill.Lending.Refresh.{
  RefreshObligationDepositsResult, no_deposits, group_of, refresh_deposit, refresh_deposits,
  refresh_obligation_deposits,
}
use solana_auditor_skill.Lending.Refresh.Deposit.{IsOrdered, HasAdded, refresh_deposit-HasAdded}

-- The sum of the values in the active slots.
abbrev pub total_value : List ObligationCollateral → ℕ
total_value [] = 0
total_value (c ∷ cs) = (if is_active_collateral c then c.market_value_sf else 0) + total_value cs

-- The reserves and the amounts of the slots.
abbrev pub slots : List ObligationCollateral → List (Pubkey × ℕ)
slots [] = []
slots (c ∷ cs) = (c.deposit_reserve, c.deposited_amount) ∷ slots cs

-- What the loop makes of its slots and totals.
abbrev HasSummed :
    RefreshObligationDepositsResult
    → RefreshObligationDepositsResult
    → (old new : List ObligationCollateral) → Type 0
HasSummed t t' cs cs' =
    (slots cs' ≡ slots cs)
    × (t'.deposited_value_f ≡ t.deposited_value_f + total_value cs')
    × (t.allowed_borrow_value_f ≤ t.unhealthy_borrow_value_f
        → t'.allowed_borrow_value_f ≤ t'.unhealthy_borrow_value_f)

skipped-HasSummed :
    (t t' : RefreshObligationDepositsResult) (c : ObligationCollateral)
    (cs cs' : List ObligationCollateral)
    → is_active_collateral c ≡ false
    → HasSummed t t' cs cs'
    → HasSummed t t' (c ∷ cs) (c ∷ cs')
skipped-HasSummed t t' c cs cs' free h =
    (ap ((c.deposit_reserve, c.deposited_amount) ∷◌) h.0, rw (free) (omega (arith, h.1)), h.2)

counted-HasSummed :
    (t mid t' : RefreshObligationDepositsResult) (c c' : ObligationCollateral)
    (cs cs' : List ObligationCollateral)
    → is_active_collateral c ≡ true
    → HasAdded t mid c c'
    → HasSummed mid t' cs cs'
    → HasSummed t t' (c ∷ cs) (c' ∷ cs')
counted-HasSummed t mid t' c c' cs cs' taken a h =
    let still : is_active_collateral c' ≡ true = rw (a.0) taken in
    (rw (a.0, a.1, h.0) refl, rw (still) (omega (arith, h.1, a.2)), λ o. h.2 (a.3 o))

-- Three ways to go on: no slot left, a free slot, a slot with its account.
refresh_deposits-HasSummed :
    (market : LendingMarket) (slot : ℕ) (debt : Option (ElevationGroup × ℕ))
    (t : RefreshObligationDepositsResult) (cs : List ObligationCollateral) (accounts : Accounts)
    (done : List ObligationCollateral × Accounts × RefreshObligationDepositsResult)
    → All (λ a. IsOrdered (get_max_ltv_and_liquidation_threshold a.1 (group_of debt))) accounts
    → refresh_deposits ⦃n = exact⦄ market slot debt t cs accounts ≡ ok done
    → HasSummed t done.2 cs done.0
unfolding refresh_deposits
refresh_deposits-HasSummed market slot debt t [] accounts done ordered e =
    subst (λ d. HasSummed t d.2 [] d.0) (ok_inj e) (refl, omega arith, λ o. o)
refresh_deposits-HasSummed market slot debt t (c ∷ cs) [] done ordered e =
    elim (Bool-cases (is_active_collateral c)) [
      | inl taken ↦
          let no : err invalid_account_input ≡ ok done = rw (sym e, taken) in
          let bad : ⊥ = cc in elim bad [ ]
      | inr free ↦
          let next = refresh_deposits ⦃n = exact⦄ market slot debt t cs [] in
          let skipped : (next >>= λ rest. ok (c ∷ rest.0, rest.1, rest.2)) ≡ ok done =
            rw (sym e, free) in
          let (rest, e0, e1) = bind_ok next _ skipped in
          let h = refresh_deposits-HasSummed market slot debt t cs [] rest ordered e0 in
          subst (λ d. HasSummed t d.2 (c ∷ cs) d.0) (ok_inj e1)
            (skipped-HasSummed t rest.2 c cs rest.0 free h)
    ]
refresh_deposits-HasSummed market slot debt t (c ∷ cs) (a ∷ accounts) done ordered e =
    elim (Bool-cases (is_active_collateral c)) [
      | inl taken ↦
          let first = refresh_deposit ⦃n = exact⦄ market slot debt t c a in
          let both_steps : (first >>= λ one_done.
          refresh_deposits ⦃n = exact⦄ market slot debt one_done.2 cs accounts >>= λ rest.
          ok (one_done.0 ∷ rest.0, one_done.1 ∷ rest.1, rest.2))
              ≡ ok done =
            rw (sym e, taken) in
          let (one_done, e0, e1) = bind_ok first _ both_steps in
          let (rest, e2, e3) =
            bind_ok (refresh_deposits ⦃n = exact⦄ market slot debt one_done.2 cs accounts) _ e1 in
          let added = refresh_deposit-HasAdded market slot debt t c a.0 a.1 one_done ordered.0 e0 in
          let h =
            refresh_deposits-HasSummed market slot debt one_done.2 cs accounts rest ordered.1 e2 in
          subst (λ d. HasSummed t d.2 (c ∷ cs) d.0) (ok_inj e3)
            (counted-HasSummed t one_done.2 rest.2 c one_done.0 cs rest.0 taken added h)
      | inr free ↦
          let next = refresh_deposits ⦃n = exact⦄ market slot debt t cs (a ∷ accounts) in
          let skipped : (next >>= λ rest. ok (c ∷ rest.0, rest.1, rest.2)) ≡ ok done =
            rw (sym e, free) in
          let (rest, e0, e1) = bind_ok next _ skipped in
          let h = refresh_deposits-HasSummed market slot debt t cs (a ∷ accounts) rest ordered e0 in
          subst (λ d. HasSummed t d.2 (c ∷ cs) d.0) (ok_inj e1)
            (skipped-HasSummed t rest.2 c cs rest.0 free h)
    ]

-- The obligation that the loop's outcome makes.
with_deposits-totals :
    (o : Obligation) (debt : Option (ElevationGroup × ℕ)) (market : LendingMarket) (slot : ℕ)
    (accounts : Accounts) (done : Obligation × Accounts × RefreshObligationDepositsResult)
    → All (λ a. IsOrdered (get_max_ltv_and_liquidation_threshold a.1 (group_of debt))) accounts
    → (refresh_deposits ⦃n = exact⦄ market slot debt no_deposits o.deposits accounts >>= λ rest.
        ok (record o { deposits = rest.0 }, rest.1, rest.2))
      ≡ ok done
    → (slots done.0.deposits ≡ slots o.deposits)
      × (done.2.deposited_value_f ≡ total_value done.0.deposits)
      × (done.2.allowed_borrow_value_f ≤ done.2.unhealthy_borrow_value_f)
with_deposits-totals o debt market slot accounts done ordered e =
    let (rest, e0, e1) =
      bind_ok (refresh_deposits ⦃n = exact⦄ market slot debt no_deposits o.deposits accounts) _ e in
    let h =
      refresh_deposits-HasSummed market slot debt no_deposits o.deposits accounts rest ordered e0 in
    subst
      (λ d.
        (slots d.0.deposits ≡ slots o.deposits)
        × (d.2.deposited_value_f ≡ total_value d.0.deposits)
        × (d.2.allowed_borrow_value_f ≤ d.2.unhealthy_borrow_value_f))
      (ok_inj e1) (h.0, omega (arith, h.1), h.2 (le_refl 0))

exact_refresh-totals :
    (market : LendingMarket) (slot : ℕ) (group : Option ElevationGroup) (borrowed : Option ℕ)
    (o : Obligation) (accounts : Accounts)
    (done : Obligation × Accounts × RefreshObligationDepositsResult)
    → All (λ a. IsOrdered (get_max_ltv_and_liquidation_threshold a.1 group)) accounts
    → refresh_obligation_deposits ⦃n = exact⦄ market slot group borrowed o accounts ≡ ok done
    → (slots done.0.deposits ≡ slots o.deposits)
      × (done.2.deposited_value_f ≡ total_value done.0.deposits)
      × (done.2.allowed_borrow_value_f ≤ done.2.unhealthy_borrow_value_f)
unfolding refresh_obligation_deposits
exact_refresh-totals market slot none none o accounts done ordered e =
    with_deposits-totals o none market slot accounts done ordered e
exact_refresh-totals market slot (some g) (some amount) o accounts done ordered e =
    with_deposits-totals o (some (g, amount)) market slot accounts done ordered e
exact_refresh-totals market slot none (some amount) o accounts done ordered e =
    let bad : ⊥ = cc in elim bad [ ]
exact_refresh-totals market slot (some g) none o accounts done ordered e =
    let bad : ⊥ = cc in elim bad [ ]

-- A refresh of an obligation's deposits that succeeds, with loan-to-value ratios that are at most
-- the thresholds of liquidation (of the elevation group, where there is one, else of every
-- reserve), keeps the reserve and the amount of every slot, gives as the deposited value the sum
-- of the values now written in the active slots, and allows to borrow at most the value at which
-- the obligation becomes unhealthy.
pub refresh_obligation_deposits-totals :
    {n : Numerics} (d : IsDocumented n) (market : LendingMarket) (slot : ℕ)
    (group : Option ElevationGroup) (borrowed : Option ℕ) (o : Obligation) (accounts : Accounts)
    (done : Obligation × Accounts × RefreshObligationDepositsResult)
    → All (λ a. IsOrdered (get_max_ltv_and_liquidation_threshold a.1 group)) accounts
    → refresh_obligation_deposits ⦃n = n⦄ market slot group borrowed o accounts ≡ ok done
    → (slots done.0.deposits ≡ slots o.deposits)
      × (done.2.deposited_value_f ≡ total_value done.0.deposits)
      × (done.2.allowed_borrow_value_f ≤ done.2.unhealthy_borrow_value_f)
refresh_obligation_deposits-totals {n} d market slot group borrowed o accounts done ordered e =
    exact_refresh-totals market slot group borrowed o accounts done ordered (
      subst
        (λ m. refresh_obligation_deposits ⦃n = m⦄ market slot group borrowed o accounts ≡ ok done)
        (exact_unique n d) e)
