-- ===== src/Facts/Decision.antt =====
-- `csp_capacity`, `cc_capacity`, `close_capacity` and `compute_decision_facts` of domain/facts_compute.py.
use wheelta_robinhood_agent.Common.{
  ℕ, ◌*◌, ◌-◌, min, not, Option, none, some, List, [], ◌∷◌, sum, ltb, if◌then◌else◌, ℤ, pos, ◌==ℤ◌,
  of_diff, Result, ok, ◌>>=◌,
}
use wheelta_robinhood_agent.Enums.{OptionRight, call, put}
use wheelta_robinhood_agent.FactsRules.{FactsRules}
use wheelta_robinhood_agent.Facts.{
  OptionQuote, Snapshot, PositionsRead, OpenOrdersRead, DebitFunding, FactsPurpose, to_open,
  to_close, to_manage, FactInputs,
}
use wheelta_robinhood_agent.Facts.Reads.{
  Cover, is_recent, quote, account, positions, orders, collateral,
}
use wheelta_robinhood_agent.Facts.Capacity.{
  Cap, contracts, order_cap, usd_cap, ratio_cap, reserve_of, cash_cap, total_cap, coverage_of,
  coverage_cap, smallest, shares_of, short_of, closing_of, settled_baseline_cash, reservation_from,
  cover_from, covered_collateral,
}

abbrev value_of : Option Snapshot → Option ℤ
value_of none = none
value_of (some acct) = acct.account_value_usd

abbrev settled_of : Option Snapshot → Option ℕ
settled_of none = none
settled_of (some acct) = acct.available_settled_cash_usd

-- `cash("csp_reserved_cash_usd")`: what the snapshot reports, else what is derived.
abbrev reserved_of : Option Snapshot → Option ℕ → Option ℕ
reserved_of none derived = none
reserved_of (some acct) derived = elim acct.csp_reserved_cash_usd [
  | some reserved ↦ some reserved
  | none ↦ derived
]

abbrev pub owned_of : ℕ → Option PositionsRead → ℕ
owned_of symbol none = 0
owned_of symbol (some read) = shares_of symbol read.share_holdings

-- The price of a closing contract: the limit, else the ask.
abbrev pub debit_price : Option ℕ → Option OptionQuote → Option ℕ
debit_price (some limit) q = some limit
debit_price none none = none
debit_price none (some q) = some q.ask

-- The cap by funding that is recent, where there is one.
abbrev pub funded : ℤ → Option ℕ → Option ℕ → Option ℕ
funded value (some price) (some multiplier) = some (contracts value (price * multiplier))
funded value (some price) none = none
funded value none multiplier = none

abbrev pub at_most_funded : ℕ → Option ℕ → ℕ
at_most_funded available none = available
at_most_funded available (some funding) = min available funding

-- `_close_target`
abbrev pub close_target : Option ℕ → ℕ → Option ℕ
close_target none book_short = none
close_target (some quantity) book_short = if ltb book_short quantity then none else some quantity

abbrev pub or_established : Option ℕ → Option ℕ → Option ℕ
or_established (some target) otherwise = some target
or_established none otherwise = otherwise

-- The quantities of `DecisionFacts`.
pub record Quantities : Type 0 where
  pub initial_quantity : Option ℕ
  pub remaining_quantity : Option ℕ

-- The end of `compute_decision_facts`.
abbrev pub remaining : Option ℕ → Option ℕ → ℕ → Option ℕ
remaining (some target) (some capacity) fills =
    if ltb target fills then none else some (min (target - fills) capacity)
remaining (some target) none fills = none
remaining none capacity fills = none

abbrev pub quantities : Option ℕ → Option ℕ → ℕ → Quantities
quantities target capacity fills = record {
  initial_quantity = target;
  remaining_quantity = remaining target capacity fills;
}

module _ (r : FactsRules) (as_of : ℕ) (i : FactInputs) where
  abbrev pub fills_total : ℕ
  fills_total = sum i.confirmed_fills

  -- `covering` on this underlying, and on every one.
  unfoldable pub covering : OptionRight → Option Cover
  covering right =
      cover_from (positions r as_of i) (orders r as_of i) right (some i.instrument.underlying)

  -- `derived_csp_reservation`
  unfoldable pub derived_csp_reservation : Option ℕ
  derived_csp_reservation =
      reservation_from (cover_from (positions r as_of i) (orders r as_of i) put none)
        (account r as_of i) (settled_baseline_cash i.cash_baseline)

  abbrev pub existing_collateral : Option ℕ
  existing_collateral = covered_collateral (covering put)

  abbrev pub account_value : Option ℤ
  account_value = value_of (account r as_of i)

  abbrev pub settled_cash : Option ℕ
  settled_cash = settled_of (account r as_of i)

  abbrev pub reserved_cash : Option ℕ
  reserved_cash = reserved_of (account r as_of i) derived_csp_reservation

  abbrev pub csp_caps : ℕ → List Cap
  csp_caps per =
      order_cap r.max_contracts_per_order
      ∷ usd_cap r.max_collateral_per_underlying_usd existing_collateral per
      ∷ ratio_cap r.max_collateral_per_underlying_ratio account_value existing_collateral per
      ∷ cash_cap (reserve_of r.min_cash_reserve_usd) settled_cash per
      ∷ total_cap r.max_total_csp_collateral_ratio settled_cash reserved_cash per
      ∷ []

  abbrev pub csp_capacity_over : Option ℕ → Result (Option ℕ)
  csp_capacity_over none = ok none
  csp_capacity_over (some per) = smallest (csp_caps per)

  unfoldable pub csp_capacity : Result (Option ℕ)
  unfolding smallest
  csp_capacity = csp_capacity_over (collateral r as_of i)

  abbrev pub cc_caps : List Cap
  cc_caps =
      order_cap r.max_contracts_per_order
      ∷ coverage_cap i.instrument.multiplier (coverage_of r.cc_max_lot_coverage_ratio)
          (covering call) (owned_of i.instrument.underlying (positions r as_of i))
      ∷ []

  unfoldable pub cc_capacity : Result (Option ℕ)
  unfolding smallest
  cc_capacity = smallest cc_caps

  abbrev pub funding_value : Option ℤ → Option ℕ → Option ℕ
  funding_value (some value) (some seen) =
      if is_recent as_of seen r.account_state_max_age_seconds
      then funded value (debit_price i.limit_price (quote r as_of i)) i.instrument.multiplier
      else none
  funding_value (some value) none = none
  funding_value none seen = none

  abbrev pub funding_from : Option DebitFunding → Option ℕ
  funding_from none = none
  funding_from (some funding) =
      if not funding.usable then none else funding_value funding.value funding.as_of

  -- `funding_cap`, absent where it does not constrain.
  unfoldable pub funding_cap : Option ℕ
  unfolding is_recent
  funding_cap = funding_from i.debit_funding

  abbrev pub close_from : ℕ → Option PositionsRead → Option OpenOrdersRead → Option ℕ
  close_from book_short (some read) (some open_orders) =
      let id = i.instrument.broker_instrument_id in
      let broker_short = short_of id read.short_options in
      if not (pos broker_short ==ℤ of_diff book_short fills_total)
      then none
      else some (at_most_funded (broker_short - closing_of id open_orders.orders) funding_cap)
  close_from book_short (some read) none = none
  close_from book_short none open_orders = none

  unfoldable pub close_capacity : ℕ → Option ℕ
  unfolding funding_cap
  close_capacity book_short = close_from book_short (positions r as_of i) (orders r as_of i)

  abbrev pub open_capacity : OptionRight → Result (Option ℕ)
  open_capacity put = csp_capacity
  open_capacity call = cc_capacity

  abbrev pub quantities_for : FactsPurpose → Result Quantities
  quantities_for to_open = do
    capacity ← open_capacity i.instrument.right
    ok (quantities (or_established i.established_target_quantity capacity) capacity fills_total)
  quantities_for (to_close book_short) = ok (
      quantities (close_target i.close_quantity book_short) (close_capacity book_short) fills_total)
  quantities_for (to_manage book_short) = ok (
      quantities (or_established i.established_target_quantity (some book_short))
        (close_capacity book_short) fills_total)

  -- `compute_decision_facts`, as far as the quantities go, at an aware time.
  unfoldable pub compute_decision_facts : Result Quantities
  unfolding csp_capacity cc_capacity close_capacity
  compute_decision_facts = quantities_for i.purpose
