-- ===== src/Facts/Funded.antt =====
-- What the reported funding pays for when a contract is closed (`funding_cap` of domain/facts_compute.py).
use wheelta_robinhood_agent.Common.{
  ℕ, zero, suc, Bool-cases, ◌*◌, ◌≤◌, ◌<◌, ◌≡◌, ◌⊎◌, refl, sym, ap, true, inl, inr, Option, none,
  some, ℤ, pos_part, arith,
}
use wheelta_robinhood_agent.FactsRules.{FactsRules}
use wheelta_robinhood_agent.Facts.{
  FactInputs, DebitFunding, OptionQuote, PositionsRead, OpenOrdersRead,
}
use wheelta_robinhood_agent.Facts.Reads.{
  is_recent, quote, positions_of, orders_of, positions, orders,
}
use wheelta_robinhood_agent.Facts.Capacity.{contracts}
use wheelta_robinhood_agent.Facts.Decision.{debit_price, funding_cap}
use wheelta_robinhood_agent.Facts.Within.{floor_iff}
use wheelta_robinhood_agent.Pretrade.Recent.{IsRecent, is_recent-IsRecent}

module _ (r : FactsRules) (as_of : ℕ) (i : FactInputs) where
  -- The price that a close is paid at: the limit, or the ask of a recent quote where none is set.
  abbrev pub IsDebitPrice : ℕ → Type 0
  IsDebitPrice price =
      (i.limit_price ≡ some price)
      ⊎ ((i.limit_price ≡ none)
          × ((q : OptionQuote) × ((i.option_quote ≡ some q)
                × (IsRecent as_of q.as_of r.option_quote_max_age_seconds × (price ≡ q.ask)))))

  -- Funding that can be used and is recent pays for the contracts at the debit price.
  pub record IsFunding (value : ℤ) (price multiplier : ℕ) : Type 0 where
    pub funding : DebitFunding
    pub seen : ℕ
    pub reported : i.debit_funding ≡ some funding
    pub usable : funding.usable ≡ true
    pub value_is : funding.value ≡ some value
    pub seen_at : funding.as_of ≡ some seen
    pub recent : IsRecent as_of seen r.account_state_max_age_seconds
    pub priced : IsDebitPrice price
    pub verified : i.instrument.multiplier ≡ some multiplier

  priced-eq :
      (price : ℕ) → IsDebitPrice price → debit_price i.limit_price (quote r as_of i) ≡ some price
  unfolding quote
  priced-eq price (inl limit) = rw limit refl
  priced-eq price (inr (unset, (q, (read, (recent, at_ask))))) =
      let young = (is_recent-IsRecent as_of q.as_of r.option_quote_max_age_seconds).1 recent in
      rw (unset, read, young) (ap some (sym at_ask))

  -- A read of the positions, or of the orders, that is complete and recent.
  pub positions-IsRecent :
      (read : PositionsRead)
      → positions r as_of i ≡ some read
      → (i.positions ≡ some read)
        × ((read.complete ≡ true) × IsRecent as_of read.as_of r.account_state_max_age_seconds)
  unfolding positions
  positions-IsRecent read h = of_read i.positions h
    where
      of_read :
          (o : Option PositionsRead)
          → positions_of r as_of o ≡ some read
          → (o ≡ some read)
            × ((read.complete ≡ true) × IsRecent as_of read.as_of r.account_state_max_age_seconds)
      of_read none e = absurd cc
      of_read (some p) e = elim (Bool-cases p.complete) [
        | inr partial ↦ absurd (let e' = rw partial at e in cc)
        | inl whole ↦ elim (Bool-cases (is_recent as_of p.as_of r.account_state_max_age_seconds)) [
          | inr old ↦ absurd (let e' = rw (whole, old) at e in cc)
          | inl young ↦
              let e' : some p ≡ some read = simp (whole, young) at e in
              let same : p ≡ read = cc in
              let recent =
                (is_recent-IsRecent as_of p.as_of r.account_state_max_age_seconds).0 young in
              (e', (rw same at whole, rw same at recent))
        ]
      ]

  pub orders-IsRecent :
      (read : OpenOrdersRead)
      → orders r as_of i ≡ some read
      → (i.open_orders ≡ some read) × IsRecent as_of read.as_of r.account_state_max_age_seconds
  unfolding orders
  orders-IsRecent read h = of_read i.open_orders h
    where
      of_read :
          (o : Option OpenOrdersRead)
          → orders_of r as_of o ≡ some read
          → (o ≡ some read) × IsRecent as_of read.as_of r.account_state_max_age_seconds
      of_read none e = absurd cc
      of_read (some p) e =
          elim (Bool-cases (is_recent as_of p.as_of r.account_state_max_age_seconds)) [
            | inr old ↦ absurd (let e' = rw old at e in cc)
            | inl young ↦
                let e' : some p ≡ some read = rw young at e in
                let same : p ≡ read = cc in
                let recent =
                  (is_recent-IsRecent as_of p.as_of r.account_state_max_age_seconds).0 young in
                (e', rw same at recent)
          ]

  pub IsFunding-eq :
      (value : ℤ) (price multiplier : ℕ)
      → IsFunding value price multiplier
      → funding_cap r as_of i ≡ some (contracts value (price * multiplier))
  unfolding funding_cap quote
  IsFunding-eq value price multiplier f =
      let young = (is_recent-IsRecent as_of f.seen r.account_state_max_age_seconds).1 f.recent in
      rw (f.reported, f.usable, f.value_is, f.seen_at, young, priced-eq price f.priced, f.verified)
        refl

pub contracts-paid :
    (value : ℤ) (per left : ℕ) → left ≤ contracts value per → left * per ≤ pos_part value
contracts-paid value zero left h = omega arith
contracts-paid value (suc p) left h =
    let d_pos : 0 < suc p = omega arith in (floor_iff (pos_part value) (suc p) left d_pos).0 h
