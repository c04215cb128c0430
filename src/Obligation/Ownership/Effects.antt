-- ===== src/Obligation/Ownership/Effects.antt =====
-- What an instruction of an ownership transfer needs and does, where it succeeds.
use solana_auditor_skill.Prelude.{ℕ, ◌≡◌, ◌≢◌, true, arith}
use solana_auditor_skill.Outcome.{Outcome, ok}
use solana_auditor_skill.Reserve.Types.{Pubkey}
use solana_auditor_skill.Obligation.Types.{Obligation, default_key, is_no_borrow_order, BorrowOrder}
use solana_auditor_skill.Obligation.Ownership.{
  transfer_state, check_ownership_transfer_not_in_progress,
  check_ownership_transfer_in_initiated_state, check_ownership_transfer_approved,
  initiate_ownership_transfer, approve_ownership_transfer, accept_ownership,
  abort_ownership_transfer, clear_expired_borrow_order, clear_if_past_fillable_timestamp,
  obligation_has_no_active_borrow_orders_check, initiate, approve, accept, abort,
}

pub initiate_lem :
    (o o' : Obligation) (owner new_owner : Pubkey) (context : Outcome (Unit {0})) (t : ℕ)
    → initiate o owner new_owner context t ≡ ok o'
    → (o.owner ≡ owner)
      × (o.ownership_transfer_state ≡ 0)
      × (o'.owner ≡ owner)
      × (o'.ownership_transfer_state ≡ 1)
      × (o'.pending_owner ≡ new_owner)
      × (new_owner ≢ default_key)
      × (new_owner ≢ owner)
unfolding initiate check_ownership_transfer_not_in_progress transfer_state
    clear_expired_borrow_order obligation_has_no_active_borrow_orders_check
    initiate_ownership_transfer
initiate_lem o o' owner new_owner context t e = ground arith

pub approve_lem :
    (o o' : Obligation) (signer admin pending : Pubkey) (t : ℕ)
    → approve o signer admin pending t ≡ ok o'
    → (signer ≡ admin)
      × (o.ownership_transfer_state ≡ 1)
      × (o'.owner ≡ o.owner)
      × (o'.ownership_transfer_state ≡ 2)
      × (o'.pending_owner ≡ o.pending_owner)
unfolding approve check_ownership_transfer_in_initiated_state transfer_state
    clear_expired_borrow_order obligation_has_no_active_borrow_orders_check
    approve_ownership_transfer
approve_lem o o' signer admin pending t e = ground arith

pub accept_lem :
    (o o' : Obligation) (pending : Pubkey) (context : Outcome (Unit {0})) (t : ℕ)
    → accept o pending context t ≡ ok o'
    → (o.pending_owner ≡ pending)
      × (o.ownership_transfer_state ≡ 2)
      × (o'.owner ≡ pending)
      × (o'.ownership_transfer_state ≡ 0)
      × (o'.pending_owner ≡ default_key)
unfolding accept check_ownership_transfer_approved transfer_state clear_expired_borrow_order
    obligation_has_no_active_borrow_orders_check accept_ownership
accept_lem o o' pending context t e = ground arith

pub abort_lem :
    (o o' : Obligation) (owner : Pubkey) (context : Outcome (Unit {0}))
    → abort o owner context ≡ ok o'
    → (o.owner ≡ owner)
      × (o.ownership_transfer_state ≡ 1)
      × (o'.owner ≡ owner)
      × (o'.ownership_transfer_state ≡ 0)
      × (o'.pending_owner ≡ default_key)
unfolding abort check_ownership_transfer_in_initiated_state transfer_state abort_ownership_transfer
abort_lem o o' owner context e = ground arith

-- No order has expired where there is none.
cleared :
    (b : BorrowOrder) (t : ℕ)
    → is_no_borrow_order b ≡ true
    → clear_if_past_fillable_timestamp b t ≡ b
unfolding clear_if_past_fillable_timestamp
cleared b t none_there = rw none_there

pub initiate_done :
    (o : Obligation) (new_owner : Pubkey) (t : ℕ)
    → o.ownership_transfer_state ≡ 0
    → is_no_borrow_order o.borrow_order ≡ true
    → new_owner ≢ default_key
    → new_owner ≢ o.owner
    → initiate o o.owner new_owner (ok tt) t
      ≡ ok (record o { pending_owner = new_owner; ownership_transfer_state = 1 })
unfolding initiate check_ownership_transfer_not_in_progress transfer_state
    clear_expired_borrow_order obligation_has_no_active_borrow_orders_check
    initiate_ownership_transfer
initiate_done o new_owner t z clear real other =
    rw (cleared o.borrow_order t clear, clear, z) (ground arith)

pub approve_done :
    (o : Obligation) (admin : Pubkey) (t : ℕ)
    → o.ownership_transfer_state ≡ 1
    → is_no_borrow_order o.borrow_order ≡ true
    → approve o admin admin o.pending_owner t ≡ ok (record o { ownership_transfer_state = 2 })
unfolding approve check_ownership_transfer_in_initiated_state transfer_state
    clear_expired_borrow_order obligation_has_no_active_borrow_orders_check
    approve_ownership_transfer
approve_done o admin t z clear = rw (cleared o.borrow_order t clear, clear, z) (ground arith)

pub accept_done :
    (o : Obligation) (t : ℕ)
    → o.ownership_transfer_state ≡ 2
    → is_no_borrow_order o.borrow_order ≡ true
    → accept o o.pending_owner (ok tt) t
      ≡ ok (record o {
        owner = o.pending_owner;
        pending_owner = default_key;
        ownership_transfer_state = 0;
      })
unfolding accept check_ownership_transfer_approved transfer_state clear_expired_borrow_order
    obligation_has_no_active_borrow_orders_check accept_ownership
accept_done o t z clear = rw (cleared o.borrow_order t clear, clear, z) (ground arith)
