-- ===== src/Facts/Reads.antt =====
-- The validated inputs of domain/facts_compute.py, each absent where a gap is recorded for it, and the sums over
-- the account's positions and orders.
use wheelta_robinhood_agent.Common.{
  ℕ, ◌+◌, ◌*◌, Bool, true, false, not, ◌&&◌, ◌||◌, Option, none, some, List, [], ◌∷◌, leb, ◌==◌,
  if◌then◌else◌,
}
use wheelta_robinhood_agent.Enums.{OptionRight, call, put, same_right}
use wheelta_robinhood_agent.OrderWalk.{is_selling}
use wheelta_robinhood_agent.FactsRules.{
  unset, no_limit, agent_discretion, CountSetting, marker, count, FactsRules,
}
use wheelta_robinhood_agent.Sanity.{in_age}
use wheelta_robinhood_agent.Facts.{
  DataQuality, stale, contradictory, low_confidence, OptionQuote, UnderlyingQuote,
  ShortOptionHolding, PositionsRead, WorkingOrder, OpenOrdersRead, Snapshot, FactInputs,
}

-- `_UNUSABLE_SNAPSHOT`
abbrev is_unusable : DataQuality → Bool
is_unusable stale = true
is_unusable contradictory = true
is_unusable low_confidence = true
is_unusable _ = false

-- `fresh`, of an aware time.
unfoldable pub is_recent : ℕ → ℕ → CountSetting → Bool
unfolding in_age
is_recent as_of observed (marker no_limit) = leb observed as_of
is_recent as_of observed (marker unset) = false
is_recent as_of observed (marker agent_discretion) = false
is_recent as_of observed (count max_age) = in_age observed as_of max_age

-- The collateral and the shares that short contracts hold.
pub record Cover : Type 0 where
  pub collateral : ℕ
  pub shares : ℕ

abbrev pub add_cover : ℕ → Option ℕ → ℕ → Option Cover → Option Cover
add_cover strike none quantity rest = none
add_cover strike (some multiplier) quantity none = none
add_cover strike (some multiplier) quantity (some rest) = some (record {
  collateral = strike * multiplier * quantity + rest.collateral;
  shares = multiplier * quantity + rest.shares;
})

-- `underlying in (None, x)`
abbrev pub is_of : Option ℕ → ℕ → Bool
is_of none x = true
is_of (some underlying) x = underlying == x

abbrev pub orders_cover : List WorkingOrder → OptionRight → Option ℕ → Option Cover
orders_cover [] right underlying = some (record { collateral = 0; shares = 0 })
orders_cover (o ∷ os) right underlying =
    let rest = orders_cover os right underlying in
    if is_of underlying o.underlying && same_right o.right right && is_selling o.side
    then add_cover o.strike o.multiplier o.unfilled_quantity rest
    else rest

abbrev pub holdings_cover :
    List ShortOptionHolding → List WorkingOrder → OptionRight → Option ℕ → Option Cover
holdings_cover [] orders right underlying = orders_cover orders right underlying
holdings_cover (h ∷ hs) orders right underlying =
    let rest = holdings_cover hs orders right underlying in
    if is_of underlying h.underlying && same_right h.right right
    then add_cover h.strike h.multiplier h.short_quantity rest
    else rest

-- `_cover`
unfoldable pub cover : PositionsRead → OpenOrdersRead → OptionRight → Option ℕ → Option Cover
cover positions orders right underlying =
    holdings_cover positions.short_options orders.orders right underlying

abbrev pub times : Option ℕ → Option ℕ → Option ℕ
times (some a) (some b) = some (a * b)
times (some a) none = none
times none b = none

module _ (r : FactsRules) (as_of : ℕ) where
  abbrev quote_of : Option OptionQuote → Option OptionQuote
  quote_of none = none
  quote_of (some q) =
      if is_recent as_of q.as_of r.option_quote_max_age_seconds then some q else none

  abbrev price_of : Option UnderlyingQuote → Option ℕ
  price_of none = none
  price_of (some q) =
      if is_recent as_of q.as_of r.equity_quote_max_age_seconds then some q.price else none

  abbrev account_of : Option Snapshot → Option Snapshot
  account_of none = none
  account_of (some acct) =
      if not acct.agentic_verified || is_unusable acct.quality
      then none
      else if is_recent as_of acct.as_of r.account_state_max_age_seconds
      then some acct
      else none

  abbrev pub positions_of : Option PositionsRead → Option PositionsRead
  positions_of none = none
  positions_of (some read) =
      if not read.complete
      then none
      else if is_recent as_of read.as_of r.account_state_max_age_seconds
      then some read
      else none

  abbrev pub orders_of : Option OpenOrdersRead → Option OpenOrdersRead
  orders_of none = none
  orders_of (some read) =
      if is_recent as_of read.as_of r.account_state_max_age_seconds then some read else none

  module _ (i : FactInputs) where
    unfoldable pub quote : Option OptionQuote
    unfolding is_recent
    quote = quote_of i.option_quote

    unfoldable pub underlying : Option ℕ
    unfolding is_recent
    underlying = price_of i.underlying_quote

    unfoldable pub account : Option Snapshot
    unfolding is_recent
    account = account_of i.account

    unfoldable pub positions : Option PositionsRead
    unfolding is_recent
    positions = positions_of i.positions

    unfoldable pub orders : Option OpenOrdersRead
    unfolding is_recent
    orders = orders_of i.open_orders

    abbrev collateral_of : OptionRight → Option ℕ
    collateral_of put = times (some i.instrument.strike) i.instrument.multiplier
    collateral_of call = times underlying i.instrument.multiplier

    -- `collateral`, per contract
    unfoldable pub collateral : Option ℕ
    unfolding underlying
    collateral = collateral_of i.instrument.right
