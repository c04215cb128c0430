-- ===== src/Lending/Collateral/Withdraw.antt =====
-- A withdrawal of collateral that succeeds: what leaves.
use solana_auditor_skill.Prelude.{
  ℕ, ◌+◌, ◌≤◌, ◌≡◌, ◌≢◌, ◌==◌, if◌then◌else◌, arith, Option, some, get_elem?, position,
  position-found, sym, subst,
}
use solana_auditor_skill.Outcome.{ok, bind_ok}
use solana_auditor_skill.Numerics.{Numerics}
use solana_auditor_skill.Reserve.Types.{Reserve, Pubkey}
use solana_auditor_skill.Obligation.Types.{Obligation, ObligationCollateral, default_key}
use solana_auditor_skill.Obligation.Queries.{position_of_collateral_in_deposits}
use solana_auditor_skill.Obligation.Slots.{withdraw, WithdrawResult}
use solana_auditor_skill.Obligation.Slots.Balances.{balance, withdraw-balance}
use solana_auditor_skill.Obligation.Slots.Keys.{AreDistinct, withdraw-AreDistinct}
use solana_auditor_skill.Obligation.Limits.{LtvMaxWithdrawalCheck}
use solana_auditor_skill.Market.{LendingMarket, ElevationGroup}
use solana_auditor_skill.Lending.Checks.{get_elevation_group, get_max_ltv_and_liquidation_threshold}
use solana_auditor_skill.Lending.Collateral.{
  check_withdraw_possible, withdraw_amount, tracker_after, withdraw_from_slot, check_after_withdraw,
  withdraw_obligation_collateral,
}

module _ ⦃n : Numerics⦄ where
  -- The steps of a withdrawal that went well.
  pub record IsWithdrawal (market : LendingMarket) (r : Reserve) (o : Obligation) (key : Pubkey)
      (p : Obligation × Reserve × ℕ) : Type 0 where
    pub index : ℕ
    pub slot : ObligationCollateral
    pub group : Option ElevationGroup
    pub in_group : get_elevation_group o.elevation_group market ≡ ok group
    pub finds : position_of_collateral_in_deposits o key ≡ ok index
    pub stands : get_elem? o.deposits index ≡ some slot
    pub leaves : withdraw_from_slot o r p.2 index slot ≡ ok (p.0, p.1)
    pub passes :
        check_after_withdraw market p.0 p.1 p.2 index
          (get_max_ltv_and_liquidation_threshold r group).1
        ≡ ok tt

  found_slot :
      (market : LendingMarket) (r : Reserve) (o : Obligation) (amount slot : ℕ) (key : Pubkey)
      (q : ℕ × ObligationCollateral)
      → check_withdraw_possible market r o amount slot key ≡ ok q
      → (position_of_collateral_in_deposits o key ≡ ok q.0) × (get_elem? o.deposits q.0 ≡ some q.1)
  unfolding check_withdraw_possible
  found_slot market r o amount slot key q e = ground arith

  pub withdraw-IsWithdrawal :
      (market : LendingMarket) (r : Reserve) (o : Obligation) (amount slot : ℕ) (key : Pubkey)
      (check : LtvMaxWithdrawalCheck) (p : Obligation × Reserve × ℕ)
      → withdraw_obligation_collateral market r o amount slot key check ≡ ok p
      → IsWithdrawal market r o key p
  unfolding withdraw_obligation_collateral
  withdraw-IsWithdrawal market r o amount slot key check p e =
      let (q, e1, rest1) = bind_ok (check_withdraw_possible market r o amount slot key) _ e in
      let (group, e2, rest2) = bind_ok (get_elevation_group o.elevation_group market) _ rest1 in
      let pcts = get_max_ltv_and_liquidation_threshold r group in
      let (withdrawn, e3, rest3) =
        bind_ok (withdraw_amount o q.1 amount pcts.0 pcts.1 check) _ rest2 in
      let (after, e4, rest4) = bind_ok (withdraw_from_slot o r withdrawn q.0 q.1) _ rest3 in
      let (u, e5, rest5) =
        bind_ok (check_after_withdraw market after.0 after.1 withdrawn q.0 pcts.1) _ rest4 in
      let same : (after.0, after.1, withdrawn) ≡ p = cc in
      let found = found_slot market r o amount slot key q e1 in
      subst (λ x. IsWithdrawal market r o key x) same
        (record {
          index = q.0;
          slot = q.1;
          group = group;
          in_group = e2;
          finds = found.0;
          stands = found.1;
          leaves = e4;
          passes = e5;
        })

  from_slot :
      (o : Obligation) (r : Reserve) (amount i : ℕ) (c : ObligationCollateral)
      (p : Obligation × Reserve)
      → withdraw_from_slot o r amount i c ≡ ok p
      → (q : Obligation × WithdrawResult) × (withdraw o amount i ≡ ok q)
        × (p.0.deposits ≡ q.0.deposits)
        × (p.0.deposited_value_sf ≡ q.0.deposited_value_sf)
  unfolding withdraw_from_slot
  from_slot o r amount i c p e =
      let (q, e1, rest) = bind_ok (withdraw o amount i) _ e in
      let (r', e2, rest2) = bind_ok (tracker_after q.1 o r c) _ rest in
      (q, e1, ground (arith, rest2), ground (arith, rest2))

  has_key :
      (o : Obligation) (key : Pubkey) (i : ℕ) (c : ObligationCollateral)
      → position_of_collateral_in_deposits o key ≡ ok i
      → get_elem? o.deposits i ≡ some c
      → c.deposit_reserve ≡ key
  unfolding position_of_collateral_in_deposits
  has_key o key i c e at =
      let found : position (λ x. x.deposit_reserve == key) o.deposits ≡ some i = ground arith in
      let (x, there, passes) = position-found (λ x. x.deposit_reserve == key) o.deposits i found in
      let same : some x ≡ some c = cc in ground arith

  -- Seen as a map from reserves to amounts, the slots of an obligation do what a withdrawal says:
  -- one that succeeds, of a reserve with a key of its own and with no two slots of the same
  -- reserve, takes its amount off the balance of its reserve, at most what is there, changes no
  -- other balance, and leaves no two slots with the same reserve.
  pub withdraw-balances :
      (market : LendingMarket) (r : Reserve) (o : Obligation) (amount slot : ℕ) (key : Pubkey)
      (check : LtvMaxWithdrawalCheck) (p : Obligation × Reserve × ℕ)
      → key ≢ default_key
      → AreDistinct o.deposits
      → withdraw_obligation_collateral market r o amount slot key check ≡ ok p
      → (p.2 ≤ balance o.deposits key)
        × AreDistinct p.0.deposits
        × ((k : Pubkey)
            → k ≢ default_key
            → balance p.0.deposits k + (if key == k then p.2 else 0) ≡ balance o.deposits k)
  withdraw-balances market r o amount slot key check p real a e =
      let w = withdraw-IsWithdrawal market r o amount slot key check p e in
      let (q, e1, same, value) = from_slot o r p.2 w.index w.slot (p.0, p.1) w.leaves in
      let moved = withdraw-balance o p.2 w.index w.slot q w.stands e1 in
      let at_key = has_key o key w.index w.slot w.finds w.stands in
      let after : (k : Pubkey)
          → k ≢ default_key
          → balance p.0.deposits k + (if key == k then p.2 else 0) ≡ balance o.deposits k =
        λ k nz. rw (same, sym at_key) (moved.1 k nz) in
      (
        (let own = after key real in ground (arith, own)),
        rw same (withdraw-AreDistinct o p.2 w.index w.slot q a w.stands e1),
        after,
      )
