-- ===== src/Lending/Reserves/Fresh.antt =====
-- What a refresh makes of a reserve's price and its freshness.
use solana_auditor_skill.Prelude.{
  ℕ, ◌≡◌, ◌==◌, false, Option, some, none, if◌then◌else◌, arith, sym, refl, ap, ◌∙◌, Bool-cases,
  inl, inr,
}
use solana_auditor_skill.Outcome.{ok, ◌>>=◌, bind_ok, ok_inj}
use solana_auditor_skill.Numerics.{Numerics}
use solana_auditor_skill.LastUpdate.{slots_elapsed, PriceStatusFlags, update_slot, no_checks}
use solana_auditor_skill.Fraction.{from_percent, from_bps}
use solana_auditor_skill.Reserve.Types.{Reserve, ReserveLiquidity}
use solana_auditor_skill.Reserve.Queries.{current_borrow_rate}
use solana_auditor_skill.Reserve.Interest.{accrue_interest, distribute_rewards, compound_interest}
use solana_auditor_skill.Market.{Clock}
use solana_auditor_skill.Lending.Reserves.{
  GetPriceResult, priced, is_emergency_mode, is_saved_price_age_valid, refresh_reserve,
}

-- The status of the price after a refresh: none of the checks in an emergency, and where there is no
-- new price and the old one has aged; otherwise the new price's, or the one there was.
abbrev pub status_after : Reserve → ℕ → Option GetPriceResult → PriceStatusFlags
status_after r now (some p) = if is_emergency_mode r then no_checks else p.status
status_after r now none =
    if is_emergency_mode r
    then no_checks
    else if is_saved_price_age_valid r now
    then r.last_update.price_status
    else no_checks

update_of_priced :
    (r : Reserve) (now slot : ℕ) (price : Option GetPriceResult)
    → update_slot (priced r now price).0.last_update slot (priced r now price).1
      ≡ record { slot = slot; stale = false; price_status = status_after r now price }
unfolding update_slot
update_of_priced r now slot (some p) = ground arith
update_of_priced r now slot none = ground arith

-- Two reserves with the same settings, update and time of the price.
abbrev pub SamePrice : Reserve → Reserve → Type 0
SamePrice a b =
    (a.config ≡ b.config)
    × (a.last_update ≡ b.last_update)
    × (a.liquidity.market_price_last_updated_ts ≡ b.liquidity.market_price_last_updated_ts)

same_status :
    (a b : Reserve) (now : ℕ) (price : Option GetPriceResult)
    → SamePrice a b
    → status_after a now price ≡ status_after b now price
same_status a b now none s = rw (s.0, s.1, s.2)
same_status a b now (some p) s = rw s.0

module _ ⦃n : Numerics⦄ where
  compound-price :
      (l l' : ReserveLiquidity) (rate fixed elapsed take referral : ℕ)
      → compound_interest l rate fixed elapsed take referral ≡ ok l'
      → l'.market_price_last_updated_ts ≡ l.market_price_last_updated_ts
  unfolding compound_interest
  compound-price l l' rate fixed elapsed take referral e = ground arith

  -- The branch of `accrue_interest` in which time has passed.
  accrued-SamePrice :
      (r a : Reserve) (elapsed bps : ℕ)
      → (current_borrow_rate r >>= λ rate. from_percent r.config.protocol_take_rate_pct >>= λ take.
          from_bps bps >>= λ referral. from_bps r.config.host_fixed_interest_rate_bps >>= λ fixed.
          compound_interest r.liquidity rate fixed elapsed take referral >>= λ l.
          ok (record r { liquidity = l }))
        ≡ ok a
      → SamePrice a r
  accrued-SamePrice r a elapsed bps e =
      let (rate, e1, rest1) = bind_ok (current_borrow_rate r) _ e in
      let (take, e2, rest2) = bind_ok (from_percent r.config.protocol_take_rate_pct) _ rest1 in
      let (referral, e3, rest3) = bind_ok (from_bps bps) _ rest2 in
      let (fixed, e4, rest4) = bind_ok (from_bps r.config.host_fixed_interest_rate_bps) _ rest3 in
      let (l, e5, rest5) =
        bind_ok (compound_interest r.liquidity rate fixed elapsed take referral) _ rest4 in
      let kept = compound-price r.liquidity l rate fixed elapsed take referral e5 in
      let is = sym (ok_inj rest5) in rw is (refl, refl, kept)

  accrue-SamePrice :
      (r a : Reserve) (slot bps : ℕ) → accrue_interest r slot bps ≡ ok a → SamePrice a r
  unfolding accrue_interest
  accrue-SamePrice r a slot bps e =
      let (elapsed, e1, rest1) = bind_ok (slots_elapsed r.last_update slot) _ e in
      elim (Bool-cases (elapsed == 0)) [
        | inl now ↦
            let same : ok r ≡ ok a = ground (arith, rest1, now) in
            rw (sym (ok_inj same)) (refl, refl, refl)
        | inr later ↦ accrued-SamePrice r a elapsed bps (ground (arith, rest1, later))
      ]

  distribute-SamePrice :
      (r : Reserve) (d : Reserve × ℕ) (slot apr : ℕ)
      → distribute_rewards r slot apr ≡ ok d
      → SamePrice d.0 r
  unfolding distribute_rewards
  distribute-SamePrice r d slot apr e = ground arith

  -- A refresh that succeeds makes the reserve fresh in its slot, with the price status that
  -- follows from the emergency mode, the price given, and the age of the price there was.
  pub refresh_reserve-update :
      (r r' : Reserve) (clock : Clock) (price : Option GetPriceResult) (bps apr : ℕ)
      → refresh_reserve r clock price bps apr ≡ ok r'
      → r'.last_update ≡ record {
        slot = clock.slot;
        stale = false;
        price_status = status_after r clock.unix_timestamp price;
      }
  unfolding refresh_reserve
  refresh_reserve-update r r' clock price bps apr e =
      let now = clock.unix_timestamp in
      let (a, e1, rest1) = bind_ok (accrue_interest r clock.slot bps) _ e in
      let (d, e2, rest2) = bind_ok (distribute_rewards a clock.slot apr) _ rest1 in
      let one = accrue-SamePrice r a clock.slot bps e1 in
      let two = distribute-SamePrice a d clock.slot apr e2 in
      let same = same_status d.0 a now price two ∙ same_status a r now price one in
      sym (ap (λ (x : Reserve). x.last_update) (ok_inj rest2))
      ∙ update_of_priced d.0 now clock.slot price
      ∙ ap (λ s. record { slot = clock.slot; stale = false; price_status = s }) same
