-- ===== src/Obligation/Slots/Keys.antt =====
-- No two slots of collateral hold the same reserve.
use solana_auditor_skill.Prelude.{
  ℕ, zero, suc, ◌≡◌, ◌≢◌, ◌==◌, ◌⊎◌, inl, inr, Bool, true, false, not, arith, List, [], ◌∷◌, Option,
  some, none, get_elem?, set_at, position, position-found, position-nowhere, length, length-set_at,
  get_elem?-set_at, All, All-map, All-at, All-set_at, Bool-cases, refl, sym, subst, ◌∙◌,
}
use solana_auditor_skill.Outcome.{ok}
use solana_auditor_skill.Reserve.Types.{Pubkey}
use solana_auditor_skill.Obligation.Types.{
  Obligation, ObligationCollateral, new_collateral, default_key,
}
use solana_auditor_skill.Obligation.Queries.{is_active_collateral}
use solana_auditor_skill.Obligation.Slots.{
  slot_of_collateral, WithdrawResult, find_or_add_collateral_to_deposits, withdraw,
}
use solana_auditor_skill.Obligation.Slots.Balances.{
  share, balance, balance-set_at, left_of, withdraw_lem,
}

abbrev pub NotAmong : Pubkey → List ObligationCollateral → Type 0
NotAmong key cs = All (λ c. c.deposit_reserve ≢ key) cs

abbrev pub AreDistinct : List ObligationCollateral → Type 0
AreDistinct [] = Unit
AreDistinct (c ∷ cs) =
    ((c.deposit_reserve ≡ default_key) ⊎ NotAmong c.deposit_reserve cs) × AreDistinct cs

-- A slot may be written with the key that it had, with the default key, or with a key that no slot has.
abbrev pub IsAllowed :
    ObligationCollateral → List ObligationCollateral → ObligationCollateral → Type 0
IsAllowed c cs d =
    (d.deposit_reserve ≡ c.deposit_reserve)
    ⊎ ((d.deposit_reserve ≡ default_key) ⊎ NotAmong d.deposit_reserve cs)

key-set_at :
    (x : ObligationCollateral) (cs : List ObligationCollateral) (i : ℕ) (c d : ObligationCollateral)
    → (x.deposit_reserve ≡ default_key) ⊎ NotAmong x.deposit_reserve cs
    → get_elem? cs i ≡ some c
    → IsAllowed c (x ∷ cs) d
    → (x.deposit_reserve ≡ default_key) ⊎ NotAmong x.deposit_reserve (set_at cs i d)
key-set_at x cs i c d (inl free) at w = inl free
key-set_at x cs i c d (inr apart) at w = elim (Bool-cases (x.deposit_reserve == default_key)) [
  | inl free ↦ inl (ground arith)
  | inr real ↦
      let elsewhere : c.deposit_reserve ≢ x.deposit_reserve =
        All-at (λ y. y.deposit_reserve ≢ x.deposit_reserve) cs i c apart at in
      let other : d.deposit_reserve ≢ x.deposit_reserve = elim w [
        | inl same ↦ (λ e. elsewhere (sym same ∙ e))
        | inr (inl free) ↦ (λ e. ground arith)
        | inr (inr fresh) ↦ (λ e. fresh.0 (sym e))
      ] in
      inr (All-set_at (λ y. y.deposit_reserve ≢ x.deposit_reserve) cs i d apart other)
]

later-IsAllowed :
    (x : ObligationCollateral) (cs : List ObligationCollateral) (c d : ObligationCollateral)
    → IsAllowed c (x ∷ cs) d
    → IsAllowed c cs d
later-IsAllowed x cs c d (inl same) = inl same
later-IsAllowed x cs c d (inr (inl free)) = inr (inl free)
later-IsAllowed x cs c d (inr (inr fresh)) = inr (inr fresh.1)

pub AreDistinct-set_at :
    (cs : List ObligationCollateral) (i : ℕ) (c d : ObligationCollateral)
    → AreDistinct cs
    → get_elem? cs i ≡ some c
    → IsAllowed c cs d
    → AreDistinct (set_at cs i d)
AreDistinct-set_at [] i c d a at w = tt
AreDistinct-set_at (x ∷ cs) zero c d (h, a) at (inl same) =
    let is : x ≡ c = cc in (rw (same, sym is) h, a)
AreDistinct-set_at (x ∷ cs) zero c d (h, a) at (inr (inl free)) = (inl free, a)
AreDistinct-set_at (x ∷ cs) zero c d (h, a) at (inr (inr fresh)) = (inr fresh.1, a)
AreDistinct-set_at (x ∷ cs) (suc i) c d (h, a) at w =
    (key-set_at x cs i c d h at w, AreDistinct-set_at cs i c d a at (later-IsAllowed x cs c d w))

-- What a slot for a reserve satisfies, with the obligation that it stands in: it holds the reserve, no
-- balance has changed, the number of slots is the same, and no two slots hold the same reserve.
pub record IsSlotOf (o : Obligation) (key : Pubkey) (o' : Obligation) (i : ℕ) : Type 0 where
  pub slot : ObligationCollateral
  pub stands : get_elem? o'.deposits i ≡ some slot
  pub holds : slot.deposit_reserve ≡ key
  pub as_many : length o'.deposits ≡ length o.deposits
  pub distinct : AreDistinct o'.deposits
  pub same_balances : (k : Pubkey) → k ≢ default_key → balance o'.deposits k ≡ balance o.deposits k

at_result :
    (o o1 : Obligation) (key i : ℕ) (b : Bool) (p : Obligation × ℕ × Bool)
    → ok (o1, i, b) ≡ ok p
    → IsSlotOf o key o1 i
    → IsSlotOf o key p.0 p.1
at_result o o1 key i b p e s =
    let same : (o1, i, b) ≡ p = cc in subst (λ q. IsSlotOf o key q.0 q.1) same s

module _ (o : Obligation) (key : Pubkey) (real : key ≢ default_key)
    (a : AreDistinct o.deposits) where
  found-IsSlotOf :
      (i : ℕ) → position (λ c. c.deposit_reserve == key) o.deposits ≡ some i → IsSlotOf o key o i
  found-IsSlotOf i at =
      let (c, there, has) = position-found (λ c. c.deposit_reserve == key) o.deposits i at in
      record {
        slot = c;
        stands = there;
        holds = ground arith;
        as_many = refl;
        distinct = a;
        same_balances = λ k nz. refl;
      }

  added-IsSlotOf :
      (i : ℕ)
      → position (λ c. c.deposit_reserve == key) o.deposits ≡ none
      → position (λ c. not (is_active_collateral c)) o.deposits ≡ some i
      → IsSlotOf o key (record o { deposits = set_at o.deposits i (new_collateral key) }) i
  added-IsSlotOf i nowhere at =
      let (c, there, free) = position-found (λ c. not (is_active_collateral c)) o.deposits i at in
      let fresh : NotAmong key o.deposits =
        All-map (λ c. (c.deposit_reserve == key) ≡ false) (λ c. c.deposit_reserve ≢ key)
          (λ c no e. ground arith) o.deposits
          (position-nowhere (λ c. c.deposit_reserve == key) o.deposits nowhere) in
      record {
        slot = new_collateral key;
        stands = get_elem?-set_at o.deposits i c (new_collateral key) there;
        holds = refl;
        as_many = length-set_at o.deposits i (new_collateral key);
        distinct = AreDistinct-set_at o.deposits i c (new_collateral key) a there (inr (inr fresh));
        same_balances = λ k nz.
            let moved = balance-set_at o.deposits i c (new_collateral key) k there in
            let none_before : share c k ≡ 0 = ground arith in
            let none_after : share (new_collateral key) k ≡ 0 = ground arith in
            omega (arith, moved, none_before, none_after);
      }

  slot_of_collateral-IsSlotOf :
      (found free : Option ℕ) (p : Obligation × ℕ × Bool)
      → position (λ c. c.deposit_reserve == key) o.deposits ≡ found
      → position (λ c. not (is_active_collateral c)) o.deposits ≡ free
      → slot_of_collateral o key found free ≡ ok p
      → IsSlotOf o key p.0 p.1
  slot_of_collateral-IsSlotOf (some i) free p at free_at e =
      at_result o o key i false p e (found-IsSlotOf i at)
  slot_of_collateral-IsSlotOf none (some i) p nowhere at e =
      at_result o _ key i true p e (added-IsSlotOf i nowhere at)
  slot_of_collateral-IsSlotOf none none p nowhere full_up e = let no : ⊥ = cc in elim no [ ]

  pub find_or_add-IsSlotOf :
      (p : Obligation × ℕ × Bool)
      → find_or_add_collateral_to_deposits o key ≡ ok p
      → IsSlotOf o key p.0 p.1
  unfolding find_or_add_collateral_to_deposits
  find_or_add-IsSlotOf p e = slot_of_collateral-IsSlotOf _ _ p refl refl e

-- A withdrawal frees the slot or keeps its key.
pub withdraw-AreDistinct :
    (o : Obligation) (amount i : ℕ) (c : ObligationCollateral) (p : Obligation × WithdrawResult)
    → AreDistinct o.deposits
    → get_elem? o.deposits i ≡ some c
    → withdraw o amount i ≡ ok p
    → AreDistinct p.0.deposits
withdraw-AreDistinct o amount i c p a at e =
    let allowed : IsAllowed c o.deposits (left_of c amount) =
      elim (Bool-cases (amount == c.deposited_amount)) [
        | inl whole ↦ inr (inl (rw whole))
        | inr part ↦ inl (rw part)
      ] in
    rw (withdraw_lem o amount i c p at e).1
      (AreDistinct-set_at o.deposits i c (left_of c amount) a at allowed)
