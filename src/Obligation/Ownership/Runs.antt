-- ===== src/Obligation/Ownership/Runs.antt =====
-- Ownership transfers as a step relation: which signatures a change of the owner takes, and that a
-- transfer can always be brought to its end.
use solana_auditor_skill.Prelude.{ℕ, ◌≡◌, ◌≢◌, true, arith, List, [], ◌∷◌, ◌⊎◌, inl, inr, refl, sym}
use solana_auditor_skill.Outcome.{Outcome, ok}
use solana_auditor_skill.Reserve.Types.{Pubkey}
use solana_auditor_skill.Obligation.Types.{Obligation, default_key, is_no_borrow_order}
use solana_auditor_skill.Obligation.Ownership.{initiate, approve, accept, abort}
use solana_auditor_skill.Obligation.Ownership.Effects.{
  initiate_lem, approve_lem, accept_lem, abort_lem, initiate_done, approve_done, accept_done,
}

-- What was signed: the owner proposed a new one, the global admin approved, the new owner accepted,
-- the owner aborted.
pub data Consent : Type 0 where
  proposed : (owner new_owner : Pubkey) → Consent
  approved_by : (admin : Pubkey) → Consent
  accepted : (new_owner : Pubkey) → Consent
  aborted : (owner : Pubkey) → Consent

-- The instructions that succeed, one after the other, with the last one first.
pub data Run (admin : Pubkey) (start : Obligation) : List Consent → Obligation → Type 0 where
  rest : Run admin start [] start
  initiates :
      {h : List Consent} {o o' : Obligation} (owner new_owner : Pubkey)
      (context : Outcome (Unit {0})) (t : ℕ)
      → Run admin start h o
      → initiate o owner new_owner context t ≡ ok o'
      → Run admin start (proposed owner new_owner ∷ h) o'
  approves :
      {h : List Consent} {o o' : Obligation} (signer pending : Pubkey) (t : ℕ)
      → Run admin start h o
      → approve o signer admin pending t ≡ ok o'
      → Run admin start (approved_by signer ∷ h) o'
  accepts :
      {h : List Consent} {o o' : Obligation} (pending : Pubkey) (context : Outcome (Unit {0}))
      (t : ℕ)
      → Run admin start h o
      → accept o pending context t ≡ ok o'
      → Run admin start (accepted pending ∷ h) o'
  aborts :
      {h : List Consent} {o o' : Obligation} (owner : Pubkey) (context : Outcome (Unit {0}))
      → Run admin start h o
      → abort o owner context ≡ ok o'
      → Run admin start (aborted owner ∷ h) o'

-- These stand in the history in this order, perhaps with others between them.
abbrev pub Includes : List Consent → List Consent → Type 0
Includes [] h = Unit
Includes (c ∷ cs) [] = ⊥
Includes (c ∷ cs) (d ∷ h) = ((c ≡ d) × Includes cs h) ⊎ Includes (c ∷ cs) h

Includes-more : (cs h : List Consent) (d : Consent) → Includes cs h → Includes cs (d ∷ h)
Includes-more [] h d i = tt
Includes-more (c ∷ cs) h d i = inr i

-- How the present owner became the owner, where it is not the one at the start.
abbrev pub Granted : Pubkey → Pubkey → List Consent → Type 0
Granted admin owner h =
    (before : Pubkey) × Includes (accepted owner ∷ approved_by admin ∷ proposed before owner ∷ []) h

Granted-more :
    (admin owner : Pubkey) (h : List Consent) (d : Consent)
    → Granted admin owner h
    → Granted admin owner (d ∷ h)
Granted-more admin owner h d (before, i) = (before, inr i)

-- What the history holds for an owner, a state of the transfer, and a pending owner.
record IsSigned (admin first : Pubkey) (h : List Consent) (owner : Pubkey) (state : ℕ)
    (pending : Pubkey) : Type 0 where
  by_owner : (owner ≡ first) ⊎ Granted admin owner h
  when_initiated : state ≡ 1 → Includes (proposed owner pending ∷ []) h
  when_approved : state ≡ 2 → Includes (approved_by admin ∷ proposed owner pending ∷ []) h

owner-more :
    (admin first owner : Pubkey) (h : List Consent) (d : Consent)
    → (owner ≡ first) ⊎ Granted admin owner h
    → (owner ≡ first) ⊎ Granted admin owner (d ∷ h)
owner-more admin first owner h d (inl same) = inl same
owner-more admin first owner h d (inr granted) = inr (Granted-more admin owner h d granted)

module _ {admin first : Pubkey} {h : List Consent} where
  after_initiate :
      {owner pending : Pubkey} {state : ℕ} (new_owner : Pubkey)
      → IsSigned admin first h owner state pending
      → IsSigned admin first (proposed owner new_owner ∷ h) owner 1 new_owner
  after_initiate {owner = owner} new_owner s = record {
    by_owner = owner-more admin first owner h (proposed owner new_owner) s.by_owner;
    when_initiated = λ e. inl (refl, tt);
    when_approved = λ e. ground arith;
  }

  after_approve :
      {owner pending : Pubkey} {state : ℕ}
      → state ≡ 1
      → IsSigned admin first h owner state pending
      → IsSigned admin first (approved_by admin ∷ h) owner 2 pending
  after_approve {owner = owner} at s = record {
    by_owner = owner-more admin first owner h (approved_by admin) s.by_owner;
    when_initiated = λ e. ground arith;
    when_approved = λ e. inl (refl, s.when_initiated at);
  }

  after_accept :
      {owner pending : Pubkey} {state : ℕ}
      → state ≡ 2
      → IsSigned admin first h owner state pending
      → IsSigned admin first (accepted pending ∷ h) pending 0 default_key
  after_accept {owner = owner} at s = record {
    by_owner = inr (owner, inl (refl, s.when_approved at));
    when_initiated = λ e. ground arith;
    when_approved = λ e. ground arith;
  }

  after_abort :
      {owner pending : Pubkey} {state : ℕ} (by : Pubkey)
      → IsSigned admin first h owner state pending
      → IsSigned admin first (aborted by ∷ h) owner 0 default_key
  after_abort {owner = owner} by s = record {
    by_owner = owner-more admin first owner h (aborted by) s.by_owner;
    when_initiated = λ e. ground arith;
    when_approved = λ e. ground arith;
  }

Run-IsSigned :
    {admin : Pubkey} {start : Obligation} {h : List Consent} {o : Obligation}
    → start.ownership_transfer_state ≡ 0
    → Run admin start h o
    → IsSigned admin start.owner h o.owner o.ownership_transfer_state o.pending_owner
Run-IsSigned {admin = admin} {start = start} z rest = rw z (record {
  by_owner = inl refl;
  when_initiated = λ e. ground arith;
  when_approved = λ e. ground arith;
})
Run-IsSigned z (initiates {o = o} {o' = o'} owner new_owner context t run e) =
    let f = initiate_lem o o' owner new_owner context t e in
    rw (f.2, f.3, f.4, sym f.0) (after_initiate new_owner (Run-IsSigned z run))
Run-IsSigned z (approves {o = o} {o' = o'} signer pending t run e) =
    let f = approve_lem o o' signer _ pending t e in
    rw (f.0, f.2, f.3, f.4) (after_approve f.1 (Run-IsSigned z run))
Run-IsSigned z (accepts {o = o} {o' = o'} pending context t run e) =
    let f = accept_lem o o' pending context t e in
    rw (f.2, f.3, f.4, sym f.0) (after_accept f.1 (Run-IsSigned z run))
Run-IsSigned z (aborts {o = o} {o' = o'} owner context run e) =
    let f = abort_lem o o' owner context e in
    rw (f.2, f.3, f.4, sym f.0) (after_abort o.owner (Run-IsSigned z run))

-- From an obligation without a transfer, along whatever instructions of the transfer succeed, an
-- owner other than the first one has accepted, after the global admin approved, after the owner
-- before proposed exactly this one.
pub Run-IsGranted :
    {admin : Pubkey} {start : Obligation} {h : List Consent} {o : Obligation}
    → start.ownership_transfer_state ≡ 0
    → Run admin start h o
    → o.owner ≢ start.owner
    → Granted admin o.owner h
Run-IsGranted z run other = elim ((Run-IsSigned z run).by_owner) [
  | inl same ↦ elim (other same) [ ]
  | inr granted ↦ granted
]

-- Where no transfer is under way and no borrow order stands, the owner, the global admin and a new
-- owner, neither the default key nor the owner, bring the transfer about by three instructions: at
-- any three times, with the other instructions of the transactions admitted, the proposal, the
-- approval and the acceptance succeed one after the other, and nothing but the owner has then
-- changed, with no pending owner left.
pub transfer_possible :
    (admin new_owner : Pubkey) (o : Obligation) (t1 t2 t3 : ℕ)
    → o.ownership_transfer_state ≡ 0
    → is_no_borrow_order o.borrow_order ≡ true
    → new_owner ≢ default_key
    → new_owner ≢ o.owner
    → (o1 o2 o' : Obligation) × (initiate o o.owner new_owner (ok tt) t1 ≡ ok o1)
      × (approve o1 admin admin new_owner t2 ≡ ok o2)
      × (accept o2 new_owner (ok tt) t3 ≡ ok o')
      × Run admin o (accepted new_owner ∷ approved_by admin ∷ proposed o.owner new_owner ∷ []) o'
      × (o' ≡ record o {
        owner = new_owner;
        pending_owner = default_key;
        ownership_transfer_state = 0;
      })
transfer_possible admin new_owner o t1 t2 t3 z clear real other =
    let o1 : Obligation = record o { pending_owner = new_owner; ownership_transfer_state = 1 } in
    let o2 : Obligation = record o { pending_owner = new_owner; ownership_transfer_state = 2 } in
    let o3 : Obligation = record o {
      owner = new_owner;
      pending_owner = default_key;
      ownership_transfer_state = 0;
    } in
    let e1 = initiate_done o new_owner t1 z clear real other in
    let e2 = approve_done o1 admin t2 refl clear in
    let e3 = accept_done o2 t3 refl clear in
    (
      o1,
      o2,
      o3,
      e1,
      e2,
      e3,
      accepts new_owner (ok tt) t3
          (approves admin new_owner t2 (initiates o.owner new_owner (ok tt) t1 rest e1) e2) e3,
      refl,
    )
