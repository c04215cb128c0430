-- ===== src/LastUpdate.antt =====
-- klend/programs/klend/src/state/last_update.rs: when a reserve or an obligation was refreshed, and
-- which checks its price passed. `PriceStatusFlags` is a byte of six named bits: here the record of
-- the six, on which `contains` is an implication bit by bit. Padding is left out.
use solana_auditor_skill.Prelude.{
  ℕ, ◌≡◌, ◌↔◌, Bool, true, false, not, ◌&&◌, ◌||◌, Option, some, none, leb, arith, if◌then◌else◌,
}
use solana_auditor_skill.Outcome.{Outcome, ok, ◌>>=◌, ok_or, checked_sub}
use solana_auditor_skill.Errors.{math_overflow}

abbrev pub stale_after_slots_elapsed : ℕ
stale_after_slots_elapsed = 1

pub record PriceStatusFlags : Type 0 where
  pub price_loaded : Bool
  pub price_age_checked : Bool
  pub twap_checked : Bool
  pub twap_age_checked : Bool
  pub heuristic_checked : Bool
  pub price_usage_allowed : Bool

abbrev pub all_checks : PriceStatusFlags
all_checks = record {
  price_loaded = true;
  price_age_checked = true;
  twap_checked = true;
  twap_age_checked = true;
  heuristic_checked = true;
  price_usage_allowed = true;
}

abbrev pub no_checks : PriceStatusFlags
no_checks = record {
  price_loaded = false;
  price_age_checked = false;
  twap_checked = false;
  twap_age_checked = false;
  heuristic_checked = false;
  price_usage_allowed = false;
}

abbrev pub liquidation_checks : PriceStatusFlags
liquidation_checks = record no_checks {
  price_loaded = true;
  price_age_checked = true;
  price_usage_allowed = true;
}

-- Every flag of the second stands in the first.
abbrev pub contains : PriceStatusFlags → PriceStatusFlags → Bool
contains s m =
    (s.price_loaded || not m.price_loaded)
    && (s.price_age_checked || not m.price_age_checked)
    && (s.twap_checked || not m.twap_checked)
    && (s.twap_age_checked || not m.twap_age_checked)
    && (s.heuristic_checked || not m.heuristic_checked)
    && (s.price_usage_allowed || not m.price_usage_allowed)

pub record LastUpdate : Type 0 where
  pub slot : ℕ
  pub stale : Bool
  pub price_status : PriceStatusFlags

-- `LastUpdate::new`
abbrev pub new : ℕ → LastUpdate
new slot = record { slot = slot; stale = true; price_status = no_checks }

unfoldable pub slots_elapsed : LastUpdate → ℕ → Outcome ℕ
slots_elapsed u slot = ok_or (checked_sub slot u.slot) math_overflow

unfoldable pub update_slot : LastUpdate → ℕ → Option PriceStatusFlags → LastUpdate
update_slot u slot none = record u { slot = slot; stale = false }
update_slot u slot (some status) = record u { slot = slot; stale = false; price_status = status }

unfoldable pub mark_stale : LastUpdate → LastUpdate
mark_stale u = record u { stale = true }

-- `||` reads no further than a `true`, so a stale record is never asked for its slot.
unfoldable pub is_stale : LastUpdate → ℕ → PriceStatusFlags → Outcome Bool
unfolding slots_elapsed
is_stale u slot min_price_status = if u.stale then ok true else do
  elapsed ← slots_elapsed u slot
  ok (leb stale_after_slots_elapsed elapsed || not (contains u.price_status min_price_status))

-- A record is fresh exactly when it was updated in this very slot, was not marked stale since, and
-- its price passed the checks that are asked for.
is_stale_iff :
    (u : LastUpdate) (slot : ℕ) (checks : PriceStatusFlags)
    → (is_stale u slot checks ≡ ok false)
      ↔ ((u.stale ≡ false) × (u.slot ≡ slot) × (contains u.price_status checks ≡ true))
unfolding is_stale
is_stale_iff u slot checks = (λ e. ground arith, λ (fresh, same, checked). ground arith)

-- An update in a slot, with a price status that holds the checks asked for, makes the record fresh
-- in that slot; marking it stale makes it stale in every slot.
pub update_slot-fresh :
    (u : LastUpdate) (slot slot' : ℕ) (status checks : PriceStatusFlags)
    → contains status checks ≡ true
    → (is_stale (update_slot u slot (some status)) slot checks ≡ ok false)
      × (is_stale (mark_stale (update_slot u slot (some status))) slot' checks ≡ ok true)
unfolding is_stale update_slot mark_stale
update_slot-fresh u slot slot' status checks h = ground arith
