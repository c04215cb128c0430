-- ===== src/Tickets/Order/Numbered.antt =====
-- Lists of tickets: their total, and their numbers in order.
use mathlib.Core.Option.{some_inj}
use solana_auditor_skill.Prelude.{
  ℕ, zero, suc, ◌+◌, ◌≡◌, arith, refl, sym, ap, some, List, [], ◌∷◌, ◌++◌, ◌∙◌, get_elem?, set_at,
}
use solana_auditor_skill.Reserve.Types.{WithdrawQueue}
use solana_auditor_skill.Tickets.{WithdrawTicket}

abbrev pub total : List WithdrawTicket → ℕ
total [] = 0
total (t ∷ ts) = t.queued_collateral_amount + total ts

-- The numbers from one up to before another, in order.
abbrev pub AreNumbered : ℕ → List WithdrawTicket → ℕ → Type 0
AreNumbered first [] next = first ≡ next
AreNumbered first (t ∷ ts) next = (t.sequence_number ≡ first) × AreNumbered (suc first) ts next

-- The tickets of a reserve: all that is queued, numbered from the next one to be withdrawn to the next
-- one to be issued.
abbrev pub IsQueueOf : WithdrawQueue → List WithdrawTicket → Type 0
IsQueueOf q ts =
    (q.queued_collateral_amount ≡ total ts)
    × AreNumbered q.next_withdrawable_ticket_sequence_number ts q.next_issued_ticket_sequence_number

abbrev pub remove_at : List WithdrawTicket → ℕ → List WithdrawTicket
remove_at [] i = []
remove_at (t ∷ ts) zero = ts
remove_at (t ∷ ts) (suc i) = t ∷ remove_at ts i

pub total-append :
    (ts : List WithdrawTicket) (t : WithdrawTicket)
    → total (ts ++ t ∷ []) ≡ total ts + t.queued_collateral_amount
total-append [] t = omega arith
total-append (x ∷ ts) t = omega (arith, total-append ts t)

pub AreNumbered-append :
    (first next : ℕ) (ts : List WithdrawTicket) (t : WithdrawTicket)
    → AreNumbered first ts next
    → t.sequence_number ≡ next
    → AreNumbered first (ts ++ t ∷ []) (suc next)
AreNumbered-append first next [] t a e = (omega (arith, a, e), omega (arith, a))
AreNumbered-append first next (x ∷ ts) t a e = (a.0, AreNumbered-append (suc first) next ts t a.1 e)

pub total-set_at :
    (ts : List WithdrawTicket) (i : ℕ) (t t' : WithdrawTicket)
    → get_elem? ts i ≡ some t
    → (others : ℕ) × (total ts ≡ t.queued_collateral_amount + others)
      × (total (set_at ts i t') ≡ t'.queued_collateral_amount + others)
total-set_at [] i t t' at = let no : ⊥ = cc in elim no [ ]
total-set_at (x ∷ ts) zero t t' at =
    (total ts, ap (λ y. y.queued_collateral_amount + total ts) (some_inj.0 at), refl)
total-set_at (x ∷ ts) (suc i) t t' at =
    let (others, before, after) = total-set_at ts i t t' at in
    (x.queued_collateral_amount + others, omega (arith, before), omega (arith, after))

pub AreNumbered-set_at :
    (first next : ℕ) (ts : List WithdrawTicket) (i : ℕ) (t t' : WithdrawTicket)
    → get_elem? ts i ≡ some t
    → t'.sequence_number ≡ t.sequence_number
    → AreNumbered first ts next
    → AreNumbered first (set_at ts i t') next
AreNumbered-set_at first next [] i t t' at e a = a
AreNumbered-set_at first next (x ∷ ts) zero t t' at e a =
    (e ∙ sym (ap (λ y. y.sequence_number) (some_inj.0 at)) ∙ a.0, a.1)
AreNumbered-set_at first next (x ∷ ts) (suc i) t t' at e a =
    (a.0, AreNumbered-set_at (suc first) next ts i t t' at e a.1)

-- The number of a ticket is its place in the queue.
number_at :
    (first next : ℕ) (ts : List WithdrawTicket) (i : ℕ) (t : WithdrawTicket)
    → get_elem? ts i ≡ some t
    → AreNumbered first ts next
    → t.sequence_number ≡ first + i
number_at first next [] i t at a = let no : ⊥ = cc in elim no [ ]
number_at first next (x ∷ ts) zero t at a =
    let same = ap (λ y. y.sequence_number) (some_inj.0 at) in omega (arith, same, a.0)
number_at first next (x ∷ ts) (suc i) t at a =
    omega (arith, number_at (suc first) next ts i t at a.1)

-- The ticket with the first number stands first, and what is left without it is in order.
pub remove_first :
    (first next : ℕ) (ts : List WithdrawTicket) (i : ℕ) (t : WithdrawTicket)
    → get_elem? ts i ≡ some t
    → AreNumbered first ts next
    → t.sequence_number ≡ first
    → AreNumbered (suc first) (remove_at ts i) next
      × (total ts ≡ t.queued_collateral_amount + total (remove_at ts i))
remove_first first next [] i t at a e = let no : ⊥ = cc in elim no [ ]
remove_first first next (x ∷ ts) zero t at a e =
    (a.1, ap (λ y. y.queued_collateral_amount + total ts) (some_inj.0 at))
remove_first first next (x ∷ ts) (suc i) t at a e =
    let no : ⊥ = omega (arith, number_at first next (x ∷ ts) (suc i) t at a, e) in elim no [ ]
