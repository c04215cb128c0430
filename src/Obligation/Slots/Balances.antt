-- ===== src/Obligation/Slots/Balances.antt =====
-- The slots of collateral seen as a map from reserves to amounts.
use solana_auditor_skill.Prelude.{
  ℕ, zero, suc, ◌+◌, ◌-◌, ◌≤◌, ◌≡◌, ◌≢◌, ◌==◌, if◌then◌else◌, arith, List, [], ◌∷◌, some, get_elem?,
  set_at, sym,
}
use solana_auditor_skill.Outcome.{ok, ◌>>=◌}
use solana_auditor_skill.Reserve.Types.{Pubkey}
use solana_auditor_skill.Obligation.Types.{
  Obligation, ObligationCollateral, new_collateral, default_key,
}
use solana_auditor_skill.Obligation.Slots.{
  WithdrawResult, full, partial, withdraw_collateral, withdraw,
}

-- What a slot holds of a reserve.
abbrev pub share : ObligationCollateral → Pubkey → ℕ
share c key = if c.deposit_reserve == key then c.deposited_amount else 0

abbrev pub balance : List ObligationCollateral → Pubkey → ℕ
balance [] key = 0
balance (c ∷ cs) key = share c key + balance cs key

pub balance-set_at :
    (cs : List ObligationCollateral) (i : ℕ) (c d : ObligationCollateral) (key : Pubkey)
    → get_elem? cs i ≡ some c
    → balance (set_at cs i d) key + share c key ≡ balance cs key + share d key
balance-set_at [] i c d key e = let no : ⊥ = cc in elim no [ ]
balance-set_at (x ∷ cs) zero c d key e = let same : x ≡ c = cc in rw same (omega arith)
balance-set_at (x ∷ cs) (suc i) c d key e = omega (arith, balance-set_at cs i c d key e)

-- What a withdrawal leaves in a slot.
abbrev pub left_of : ObligationCollateral → ℕ → ObligationCollateral
left_of c amount =
    if amount == c.deposited_amount
    then new_collateral default_key
    else record c { deposited_amount = c.deposited_amount - amount }

pub withdraw_lem :
    (o : Obligation) (amount i : ℕ) (c : ObligationCollateral) (p : Obligation × WithdrawResult)
    → get_elem? o.deposits i ≡ some c
    → withdraw o amount i ≡ ok p
    → (amount ≤ c.deposited_amount)
      × (p.0 ≡ record o { deposits = set_at o.deposits i (left_of c amount) })
unfolding withdraw withdraw_collateral
withdraw_lem o amount i c p at e =
    let run : (if amount == c.deposited_amount
          then ok (record o { deposits = set_at o.deposits i (new_collateral default_key) }, full)
          else (withdraw_collateral c amount >>= λ left.
              ok (record o { deposits = set_at o.deposits i left }, partial)))
        ≡ ok p =
      rw (sym e, at) in
    ground (arith, run)

left-share :
    (c : ObligationCollateral) (amount : ℕ) (key : Pubkey)
    → amount ≤ c.deposited_amount
    → key ≢ default_key
    → share (left_of c amount) key + (if c.deposit_reserve == key then amount else 0) ≡ share c key
left-share c amount key fits real = ground arith

-- A withdrawal from a slot takes exactly its amount off the balance of the slot's reserve, at most what
-- the slot held, and changes no other balance.
pub withdraw-balance :
    (o : Obligation) (amount i : ℕ) (c : ObligationCollateral) (p : Obligation × WithdrawResult)
    → get_elem? o.deposits i ≡ some c
    → withdraw o amount i ≡ ok p
    → (amount ≤ c.deposited_amount)
      × ((key : Pubkey)
          → key ≢ default_key
          → balance p.0.deposits key + (if c.deposit_reserve == key then amount else 0)
            ≡ balance o.deposits key)
withdraw-balance o amount i c p at e =
    let (fits, after) = withdraw_lem o amount i c p at e in
    (
      fits,
      λ key real. rw after (
          omega (
            arith,
            balance-set_at o.deposits i c (left_of c amount) key at,
            left-share c amount key fits real,
          )),
    )
