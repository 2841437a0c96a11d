-- ===== src/Facts/Capacity.antt =====
-- The capacities of domain/facts_compute.py: the largest number of contracts that a decision may open or close.
use wheelta_robinhood_agent.Common.{
  ℕ, ◌+◌, ◌*◌, ◌/◌, min, Bool, true, false, not, ◌&&◌, ◌||◌, Option, none, some, List, [], ◌∷◌, ltb,
  ◌==◌, if◌then◌else◌, any, get_or, ℤ, pos, pos_part, neg_part, ◌==ℤ◌, ◌+ℤ◌, of_diff, max_zero,
  Result, ok, err, value_error,
}
use wheelta_robinhood_agent.Enums.{OptionRight, put}
use wheelta_robinhood_agent.OrderWalk.{is_selling}
use wheelta_robinhood_agent.FactsRules.{
  FactsRuleMarker, unset, no_limit, agent_discretion, CountSetting, marker, count, MoneySetting,
  money_marker, amount, RatioSetting, ratio_marker, ratio, Decimal, scale,
}
use wheelta_robinhood_agent.Facts.{
  ShareHolding, ShortOptionHolding, WorkingOrder, PositionsRead, OpenOrdersRead, Snapshot,
  CashBaseline,
}
use wheelta_robinhood_agent.Facts.Reads.{Cover, cover}

-- `int | FactsRuleMarker | None`: a cap, no limit, or an unavailable one.
pub data Cap : Type 0 where
  unavailable unlimited : Cap
  at_most : ℕ → Cap

abbrev pub marker_cap : FactsRuleMarker → Cap
marker_cap no_limit = unlimited
marker_cap unset = unavailable
marker_cap agent_discretion = unavailable

-- `contracts`: the division rounds towards zero.
abbrev pub contracts : ℤ → ℕ → ℕ
contracts available per_contract = max_zero available / per_contract

abbrev pub times_ℤ : ℕ → ℤ → ℤ
times_ℤ k v = of_diff (k * pos_part v) (k * neg_part v)

abbrev pub minus : ℤ → ℕ → ℤ
minus a b = a +ℤ of_diff 0 b

-- A ratio of an amount, less what is taken, over the collateral of a contract.
abbrev pub ratio_contracts : Decimal → ℤ → ℕ → ℕ → ℕ
ratio_contracts d of taken per =
    contracts (minus (times_ℤ d.digits of) (scale d * taken)) (per * scale d)

-- `order_cap`
unfoldable pub order_cap : CountSetting → Cap
order_cap (marker m) = marker_cap m
order_cap (count n) = at_most n

-- `underlying_cap`, for the cap in money and for the ratio of the account's value.
unfoldable pub usd_cap : MoneySetting → Option ℕ → ℕ → Cap
usd_cap (money_marker m) existing per = marker_cap m
usd_cap (amount usd) none per = unavailable
usd_cap (amount usd) (some existing) per = at_most (contracts (of_diff usd existing) per)

unfoldable pub ratio_cap : RatioSetting → Option ℤ → Option ℕ → ℕ → Cap
ratio_cap (ratio_marker m) value existing per = marker_cap m
ratio_cap (ratio d) value none per = unavailable
ratio_cap (ratio d) none (some existing) per = unavailable
ratio_cap (ratio d) (some value) (some existing) per =
    at_most (ratio_contracts d value existing per)

abbrev pub reserve_of : MoneySetting → Option ℕ
reserve_of (money_marker no_limit) = some 0
reserve_of (money_marker unset) = none
reserve_of (money_marker agent_discretion) = none
reserve_of (amount usd) = some usd

-- The cap by cash: what is available over the reserve.
unfoldable pub cash_cap : Option ℕ → Option ℕ → ℕ → Cap
cash_cap (some reserve) (some cash) per = at_most (contracts (of_diff cash reserve) per)
cash_cap (some reserve) none per = unavailable
cash_cap none cash per = unavailable

-- The cap by all collateral, over the available and the reserved cash.
unfoldable pub total_cap : RatioSetting → Option ℕ → Option ℕ → ℕ → Cap
total_cap (ratio_marker m) cash reserved per = marker_cap m
total_cap (ratio d) (some cash) (some reserved) per =
    at_most (ratio_contracts d (pos (cash + reserved)) reserved per)
total_cap (ratio d) (some cash) none per = unavailable
total_cap (ratio d) none reserved per = unavailable

abbrev pub coverage_of : RatioSetting → Option Decimal
coverage_of (ratio_marker no_limit) = some (record { digits = 1; places = 0 })
coverage_of (ratio_marker unset) = none
coverage_of (ratio_marker agent_discretion) = none
coverage_of (ratio d) = some d

-- The cap by the shares that are owned and not yet covered.
unfoldable pub coverage_cap : Option ℕ → Option Decimal → Option Cover → ℕ → Cap
coverage_cap (some multiplier) (some d) (some covered) owned =
    at_most (ratio_contracts d (pos owned) covered.shares multiplier)
coverage_cap (some multiplier) (some d) none owned = unavailable
coverage_cap (some multiplier) none covered owned = unavailable
coverage_cap none d covered owned = unavailable

abbrev pub is_unavailable : Cap → Bool
is_unavailable unavailable = true
is_unavailable unlimited = false
is_unavailable (at_most n) = false

abbrev pub lower : ℕ → Option ℕ → Option ℕ
lower n none = some n
lower n (some m) = some (min n m)

-- `min(cap for cap in caps if isinstance(cap, int))`
abbrev pub least : List Cap → Option ℕ
least [] = none
least (at_most n ∷ caps) = lower n (least caps)
least (unlimited ∷ caps) = least caps
least (unavailable ∷ caps) = least caps

abbrev pub some_or_raise : Option ℕ → Result (Option ℕ)
some_or_raise none = err value_error
some_or_raise (some n) = ok (some n)

-- `_smallest`; `min` of nothing raises.
unfoldable pub smallest : List Cap → Result (Option ℕ)
smallest caps = if any is_unavailable caps then ok none else some_or_raise (least caps)

abbrev pub shares_of : ℕ → List ShareHolding → ℕ
shares_of symbol [] = 0
shares_of symbol (h ∷ hs) = (if h.symbol == symbol then h.quantity else 0) + shares_of symbol hs

abbrev pub short_of : ℕ → List ShortOptionHolding → ℕ
short_of id [] = 0
short_of id (h ∷ hs) =
    (if h.broker_instrument_id == id then h.short_quantity else 0) + short_of id hs

abbrev pub closing_of : ℕ → List WorkingOrder → ℕ
closing_of id [] = 0
closing_of id (o ∷ os) =
    (if o.broker_instrument_id == id && not (is_selling o.side) then o.unfilled_quantity else 0)
    + closing_of id os

-- The end of `settled_baseline_cash`: the gross and the settled cash.
pub record Baseline : Type 0 where
  pub gross : ℕ
  pub settled : ℤ

abbrev balanced : ℕ → ℤ → ℕ → ℕ → Option Baseline
balanced gross settled held net =
    if minus settled held ==ℤ pos net
    then some (record { gross = gross; settled = settled })
    else none

abbrev settled_from : CashBaseline → Option ℕ → Option ℕ → Option Cover → Option Baseline
settled_from b (some gross) (some net) (some held) =
    balanced gross (of_diff gross (get_or 0 b.unsettled_usd)) held.collateral net
settled_from b _ _ _ = none

-- `settled_baseline_cash`
unfoldable pub settled_baseline_cash : Option CashBaseline → Option Baseline
unfolding cover
settled_baseline_cash none = none
settled_baseline_cash (some b) =
    if not b.positions.complete
    then none
    else settled_from b b.account.cash_usd b.account.available_settled_cash_usd
        (cover b.positions b.open_orders put none)

-- Buying power is the baseline's settled cash less the collateral, and cash has only grown.
abbrev follows_baseline : ℕ → ℕ → ℕ → Option Baseline → Bool
follows_baseline gross net held none = false
follows_baseline gross net held (some base) =
    pos net ==ℤ minus base.settled held && not (ltb gross base.gross)

abbrev pub checked_reservation : ℕ → Option ℕ → Option ℕ → Option Baseline → Option ℕ
checked_reservation held (some gross) (some net) base =
    if of_diff gross held ==ℤ pos net || follows_baseline gross net held base
    then some held
    else none
checked_reservation held _ _ base = none

abbrev pub reservation_from : Option Cover → Option Snapshot → Option Baseline → Option ℕ
reservation_from (some held) (some acct) base =
    checked_reservation held.collateral acct.cash_usd acct.available_settled_cash_usd base
reservation_from _ _ base = none

abbrev pub cover_from :
    Option PositionsRead → Option OpenOrdersRead → OptionRight → Option ℕ → Option Cover
cover_from (some read) (some open_orders) right of = cover read open_orders right of
cover_from _ _ right of = none

abbrev pub covered_collateral : Option Cover → Option ℕ
covered_collateral none = none
covered_collateral (some held) = some held.collateral
