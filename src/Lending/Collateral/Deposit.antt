-- ===== src/Lending/Collateral/Deposit.antt =====
-- A deposit of collateral that succeeds.
use solana_auditor_skill.Prelude.{
  ℕ, ◌+◌, ◌≡◌, ◌≢◌, ◌==◌, Bool, true, false, if◌then◌else◌, arith, Option, some, none, get_elem?,
  set_at, sym, length, length-set_at, inl, ◌∙◌,
}
use mathlib.Core.Option.{some_inj}
use solana_auditor_skill.Outcome.{ok, unwrap, bind_ok}
use solana_auditor_skill.LastUpdate.{mark_stale}
use solana_auditor_skill.Numerics.{Numerics}
use solana_auditor_skill.Reserve.Types.{Reserve, Pubkey}
use solana_auditor_skill.Obligation.Types.{Obligation, ObligationCollateral, default_key}
use solana_auditor_skill.Obligation.Queries.{
  active_deposits_count, get_borrowed_amount_if_single_token,
}
use solana_auditor_skill.Obligation.Slots.{find_or_add_collateral_to_deposits, deposit_collateral}
use solana_auditor_skill.Obligation.Slots.Balances.{balance, balance-set_at}
use solana_auditor_skill.Obligation.Slots.Keys.{
  AreDistinct, AreDistinct-set_at, find_or_add-IsSlotOf,
}
use solana_auditor_skill.Obligation.Orders.{check_orders_supported_after_user_operation}
use solana_auditor_skill.Market.{LendingMarket, ElevationGroup}
use solana_auditor_skill.Lending.Groups.{
  MaxReservesAsCollateralCheck, update_trackers_on_new_deposit,
}
use solana_auditor_skill.Lending.Collateral.{
  check_deposit_possible, check_after_deposit, with_stale_update, tracked_slot, deposit_into_slot,
  deposit_obligation_collateral,
}

slot-written :
    (o : Obligation) (i : ℕ) (c d : ObligationCollateral) (key : Pubkey) (amount : ℕ) (k : Pubkey)
    → get_elem? o.deposits i ≡ some c
    → c.deposit_reserve ≡ key
    → d.deposit_reserve ≡ key
    → d.deposited_amount ≡ c.deposited_amount + amount
    → balance (set_at o.deposits i d) k ≡ balance o.deposits k + (if key == k then amount else 0)
slot-written o i c d key amount k at has has_new more =
    let moved = balance-set_at o.deposits i c d k at in ground (arith, moved)

module _ ⦃n : Numerics⦄ where
  -- The trackers leave the slot's reserve and amount alone.
  tracked-same :
      (new : Bool) (total : Option ℕ) (c : ObligationCollateral) (count : ℕ)
      (group : Option ElevationGroup) (key : Pubkey) (r : Reserve)
      (check : MaxReservesAsCollateralCheck) (t : ObligationCollateral × Reserve)
      → tracked_slot new total c count group key r check ≡ ok t
      → (t.0.deposit_reserve ≡ c.deposit_reserve) × (t.0.deposited_amount ≡ c.deposited_amount)
  unfolding update_trackers_on_new_deposit
  tracked-same false total c count group key r check t e = ground arith
  tracked-same true total c count none key r check t e = ground arith
  tracked-same true total c count (some g) key r check t e = ground arith

  deposited :
      (c d : ObligationCollateral) (amount : ℕ)
      → deposit_collateral c amount ≡ ok d
      → (d.deposit_reserve ≡ c.deposit_reserve) × (d.deposited_amount ≡ c.deposited_amount + amount)
  unfolding deposit_collateral
  deposited c d amount e = ground arith

  deposit_into_slot-balances :
      (o : Obligation) (r : Reserve) (key : Pubkey) (amount : ℕ) (group : Option ElevationGroup)
      (check : MaxReservesAsCollateralCheck) (p : Obligation × Reserve × ℕ)
      → key ≢ default_key
      → AreDistinct o.deposits
      → deposit_into_slot o r key amount group check ≡ ok p
      → (length p.0.deposits ≡ length o.deposits)
        × AreDistinct p.0.deposits
        × ((k : Pubkey)
            → k ≢ default_key
            → balance p.0.deposits k ≡ balance o.deposits k + (if key == k then amount else 0))
  unfolding deposit_into_slot
  deposit_into_slot-balances o r key amount group check p real a e =
      let (total, e1, rest1) = bind_ok (get_borrowed_amount_if_single_token o) _ e in
      let (q, e2, rest2) = bind_ok (find_or_add_collateral_to_deposits o key) _ rest1 in
      let s = find_or_add-IsSlotOf o key real a q e2 in
      let (c, e3, rest3) = bind_ok (unwrap (get_elem? q.0.deposits q.1)) _ rest2 in
      let is : get_elem? q.0.deposits q.1 ≡ some c = ground arith in
      let (t, e4, rest4) =
        bind_ok (tracked_slot q.2 total c (active_deposits_count o) group key r check) _ rest3 in
      let (d, e5, rest5) = bind_ok (deposit_collateral t.0 amount) _ rest4 in
      let same : s.slot ≡ c = some_inj.0 (sym s.stands ∙ is) in
      let has : c.deposit_reserve ≡ key = rw (sym same) s.holds in
      let kept = tracked-same q.2 total c (active_deposits_count o) group key r check t e4 in
      let grown = deposited t.0 d amount e5 in
      let has_new : d.deposit_reserve ≡ key = grown.0 ∙ kept.0 ∙ has in
      let more : d.deposited_amount ≡ c.deposited_amount + amount =
        omega (arith, grown.1, kept.1) in
      let after : p.0.deposits ≡ set_at q.0.deposits q.1 d = ground (arith, rest5) in
      (
        rw after (length-set_at q.0.deposits q.1 d ∙ s.as_many),
        rw after (AreDistinct-set_at q.0.deposits q.1 c d s.distinct is (inl (grown.0 ∙ kept.0))),
        λ k nz.
            rw (after, sym (s.same_balances k nz))
              (slot-written q.0 q.1 c d key amount k is has has_new more),
      )

  -- Seen as a map from reserves to amounts, the slots of an obligation do what a deposit says: one
  -- that succeeds, of a reserve with a key of its own and with no two slots of the same reserve,
  -- adds its amount to the balance of its reserve, changes no other balance, and keeps the number
  -- of slots and that no two of them hold the same reserve.
  pub deposit-balances :
      (market : LendingMarket) (r : Reserve) (o : Obligation) (slot amount : ℕ) (key : Pubkey)
      (check : MaxReservesAsCollateralCheck) (p : Obligation × Reserve)
      → key ≢ default_key
      → AreDistinct o.deposits
      → deposit_obligation_collateral market r o slot amount key check ≡ ok p
      → (length p.0.deposits ≡ length o.deposits)
        × AreDistinct p.0.deposits
        × ((k : Pubkey)
            → k ≢ default_key
            → balance p.0.deposits k ≡ balance o.deposits k + (if key == k then amount else 0))
  unfolding deposit_obligation_collateral
  deposit-balances market r o slot amount key check p real a e =
      let (group, e1, rest1) = bind_ok (check_deposit_possible market r o slot amount) _ e in
      let (q, e2, rest2) = bind_ok (deposit_into_slot o r key amount group check) _ rest1 in
      let (u, e3, rest3) = bind_ok (check_orders_supported_after_user_operation q.0) _ rest2 in
      let marked : Obligation = record q.0 { last_update = mark_stale q.0.last_update } in
      let (v, e4, rest4) =
        bind_ok (check_after_deposit market marked (with_stale_update q.1) amount q.2) _ rest3 in
      let same : p.0.deposits ≡ q.0.deposits = ground (arith, rest4) in
      rw same (deposit_into_slot-balances o r key amount group check q real a e2)
