-- ===== src/Obligation/Ownership.antt =====
-- The transfer of an obligation to another owner: the methods of
-- klend/programs/klend/src/state/obligation.rs and the instructions that call them
-- (klend/programs/klend/src/handlers/handler_*_obligation_ownership*.rs). An instruction takes the keys
-- that signed it: `has_one` and `Signer`, which Anchor checks before the handler, are its first tests.
-- Whether the other instructions of the transaction are admitted
-- (obligation_ownership_transfer_execution_context_checks, which reads the transaction) is an argument,
-- the outcome of that check.
pub mod Effects
pub mod Runs
use solana_auditor_skill.Prelude.{ℕ, ◌==◌, Bool, true, false, not, ◌&&◌, ltb, if◌then◌else◌}
use solana_auditor_skill.Outcome.{
  Outcome, ok, err, panic, ◌>>=◌, ◌>>◌, refuse_if, require, check_account,
}
use solana_auditor_skill.Errors.{
  obligation_ownership_transfer_in_progress, obligation_ownership_transfer_not_in_initiated_state,
  obligation_ownership_transfer_not_approved, obligation_invalid_pending_owner,
  obligation_has_active_borrow_orders,
}
use solana_auditor_skill.Reserve.Types.{Pubkey}
use solana_auditor_skill.Obligation.Types.{
  Obligation, BorrowOrder, OwnershipTransferState, no_transfer, initiated, approved, default_key,
  no_borrow_order, is_no_borrow_order,
}

-- `OwnershipTransferState::try_from`, with `expect`.
unfoldable pub transfer_state : Obligation → Outcome OwnershipTransferState
transfer_state o =
    if o.ownership_transfer_state == 0
    then ok no_transfer
    else if o.ownership_transfer_state == 1
    then ok initiated
    else if o.ownership_transfer_state == 2
    then ok approved
    else panic

-- The byte of a state: `into()`.
abbrev pub byte_of : OwnershipTransferState → ℕ
byte_of no_transfer = 0
byte_of initiated = 1
byte_of approved = 2

abbrev pub same_state : OwnershipTransferState → OwnershipTransferState → Bool
same_state a b = byte_of a == byte_of b

unfoldable pub check_ownership_transfer_not_in_progress : Obligation → Outcome (Unit {0})
unfolding transfer_state
check_ownership_transfer_not_in_progress o = do
  state ← transfer_state o
  refuse_if (not (same_state state no_transfer)) obligation_ownership_transfer_in_progress

unfoldable pub check_ownership_transfer_in_initiated_state : Obligation → Outcome (Unit {0})
unfolding transfer_state
check_ownership_transfer_in_initiated_state o = do
  state ← transfer_state o
  refuse_if (not (same_state state initiated)) obligation_ownership_transfer_not_in_initiated_state

unfoldable pub check_ownership_transfer_approved : Obligation → Outcome (Unit {0})
unfolding transfer_state
check_ownership_transfer_approved o = do
  state ← transfer_state o
  refuse_if (not (same_state state approved)) obligation_ownership_transfer_not_approved

unfoldable pub initiate_ownership_transfer : Obligation → Pubkey → Outcome Obligation
initiate_ownership_transfer o pending_owner = do
  refuse_if (pending_owner == default_key) obligation_invalid_pending_owner
  refuse_if (pending_owner == o.owner) obligation_invalid_pending_owner
  ok (record o { ownership_transfer_state = byte_of initiated; pending_owner = pending_owner })

unfoldable pub approve_ownership_transfer : Obligation → Outcome Obligation
approve_ownership_transfer o = ok (record o { ownership_transfer_state = byte_of approved })

unfoldable pub accept_ownership : Obligation → Outcome Obligation
accept_ownership o = ok (record o {
  owner = o.pending_owner;
  pending_owner = default_key;
  ownership_transfer_state = byte_of no_transfer;
})

unfoldable pub abort_ownership_transfer : Obligation → Outcome Obligation
abort_ownership_transfer o =
    ok (record o { pending_owner = default_key; ownership_transfer_state = byte_of no_transfer })

unfoldable pub clear_if_past_fillable_timestamp : BorrowOrder → ℕ → BorrowOrder
unfolding is_no_borrow_order
clear_if_past_fillable_timestamp b timestamp =
    if not (is_no_borrow_order b) && ltb b.fillable_until_timestamp timestamp
    then no_borrow_order
    else b

-- `clear_expired_borrow_order_on_initiating_obligation_ownership_transfer`
unfoldable pub clear_expired_borrow_order : Obligation → ℕ → Obligation
clear_expired_borrow_order o timestamp = record o {
  borrow_order = clear_if_past_fillable_timestamp o.borrow_order timestamp;
}

unfoldable pub obligation_has_no_active_borrow_orders_check : Obligation → Outcome (Unit {0})
obligation_has_no_active_borrow_orders_check o =
    refuse_if (not (is_no_borrow_order o.borrow_order)) obligation_has_active_borrow_orders

-- `has_one = owner`
unfoldable pub initiate :
    Obligation → (owner new_owner : Pubkey) → Outcome (Unit {0}) → ℕ → Outcome Obligation
initiate o owner new_owner context timestamp = do
  check_account (o.owner == owner)
  check_ownership_transfer_not_in_progress o
  let cleared = clear_expired_borrow_order o timestamp
  context
  obligation_has_no_active_borrow_orders_check cleared
  initiate_ownership_transfer cleared new_owner

unfoldable pub approve :
    Obligation → (signer global_admin pending_owner : Pubkey) → ℕ → Outcome Obligation
approve o signer global_admin pending_owner timestamp = do
  check_account (signer == global_admin)
  require (o.pending_owner == pending_owner) obligation_invalid_pending_owner
  let cleared = clear_expired_borrow_order o timestamp
  check_ownership_transfer_in_initiated_state cleared
  obligation_has_no_active_borrow_orders_check cleared
  approve_ownership_transfer cleared

unfoldable pub accept :
    Obligation → (pending_owner : Pubkey) → Outcome (Unit {0}) → ℕ → Outcome Obligation
accept o pending_owner context timestamp = do
  require (o.pending_owner == pending_owner) obligation_invalid_pending_owner
  let cleared = clear_expired_borrow_order o timestamp
  context
  obligation_has_no_active_borrow_orders_check cleared
  check_ownership_transfer_approved cleared
  accept_ownership cleared

unfoldable pub abort : Obligation → (owner : Pubkey) → Outcome (Unit {0}) → Outcome Obligation
abort o owner context = do
  check_account (o.owner == owner)
  context
  check_ownership_transfer_in_initiated_state o
  abort_ownership_transfer o
