-- ===== src/Facts/Bounds.antt =====
-- The quantities of domain/facts_compute.py are computed, and bounded by what the account holds.
use wheelta_robinhood_agent.Common.{
  ℕ, ◌+◌, ◌-◌, ◌≤◌, min, ◌≡◌, refl, Bool, true, false, ◌||◌, inl, inr, Bool-cases, Option, none,
  some, List, [], ◌∷◌, ltb, any, is_some, ok, arith,
}
use wheelta_robinhood_agent.Enums.{call, put, OptionRight}
use wheelta_robinhood_agent.FactsRules.{FactsRules, Decimal}
use wheelta_robinhood_agent.Facts.{FactInputs, FactsPurpose, to_open, to_close, to_manage}
use wheelta_robinhood_agent.Facts.Reads.{Cover, positions, collateral}
use wheelta_robinhood_agent.Facts.Capacity.{
  Cap, at_most, unavailable, unlimited, order_cap, usd_cap, ratio_cap, total_cap, is_unavailable,
  least, lower, some_or_raise, reserve_of, cash_cap, coverage_of, coverage_cap, smallest,
}
use wheelta_robinhood_agent.Facts.Decision.{
  Quantities, quantities, quantities_for, remaining, or_established, covering, existing_collateral,
  account_value, reserved_cash, settled_cash, owned_of, csp_caps, csp_capacity_over, csp_capacity,
  cc_caps, cc_capacity, fills_total, compute_decision_facts, open_capacity,
}

-- A cap that bounds, unless it is unavailable.
abbrev IsNumeric : Cap → Type 0
IsNumeric c = is_some (least (c ∷ [])) || is_unavailable c ≡ true

lower_some : (n : ℕ) (o : Option ℕ) → is_some (lower n o) ≡ true
lower_some n none = refl
lower_some n (some m) = refl

least_later :
    (c : Cap) (caps : List Cap) → is_some (least caps) ≡ true → is_some (least (c ∷ caps)) ≡ true
least_later unavailable caps h = h
least_later unlimited caps h = h
least_later (at_most n) caps h = lower_some n (least caps)

numeric_least :
    (c : Cap) (caps : List Cap)
    → IsNumeric c
    → is_unavailable c ≡ false
    → is_some (least (c ∷ caps)) ≡ true
numeric_least unavailable caps h e = absurd cc
numeric_least unlimited caps h e = absurd cc
numeric_least (at_most n) caps h e = lower_some n (least caps)

some_returns : (o : Option ℕ) → is_some o ≡ true → (q : Option ℕ) × (some_or_raise o ≡ ok q)
some_returns none h = absurd cc
some_returns (some n) h = (some n, refl)

smallest_returns :
    (caps : List Cap)
    → (any is_unavailable caps ≡ false → is_some (least caps) ≡ true)
    → (q : Option ℕ) × (smallest caps ≡ ok q)
unfolding smallest
smallest_returns caps bounded = elim (Bool-cases (any is_unavailable caps)) [
  | inl gone ↦ (none, rw gone refl)
  | inr there ↦ let e = some_returns (least caps) (bounded there) in (e.0, rw there e.1)
]

cash_cap-IsNumeric : (reserve cash : Option ℕ) (per : ℕ) → IsNumeric (cash_cap reserve cash per)
unfolding cash_cap
cash_cap-IsNumeric (some reserve) (some cash) per = refl
cash_cap-IsNumeric (some reserve) none per = refl
cash_cap-IsNumeric none cash per = refl

coverage_cap-IsNumeric :
    (multiplier : Option ℕ) (d : Option Decimal) (covered : Option Cover) (owned : ℕ)
    → IsNumeric (coverage_cap multiplier d covered owned)
unfolding coverage_cap
coverage_cap-IsNumeric (some multiplier) (some d) (some covered) owned = refl
coverage_cap-IsNumeric (some multiplier) (some d) none owned = refl
coverage_cap-IsNumeric (some multiplier) none covered owned = refl
coverage_cap-IsNumeric none d covered owned = refl

pub or_right : (a b : Bool) → (a || b) ≡ false → b ≡ false
or_right true b h = absurd cc
or_right false b h = h

pub or_left : (a b : Bool) → (a || b) ≡ false → a ≡ false
or_left true b h = absurd cc
or_left false b h = refl

-- A list of caps with a least one, unless one is unavailable.
abbrev IsBounded : List Cap → Type 0
IsBounded caps = any is_unavailable caps ≡ false → is_some (least caps) ≡ true

IsBounded-after : (c : Cap) (caps : List Cap) → IsBounded caps → IsBounded (c ∷ caps)
IsBounded-after c caps bounded there =
    least_later c caps (bounded (or_right (is_unavailable c) (any is_unavailable caps) there))

IsBounded-by : (c : Cap) (caps : List Cap) → IsNumeric c → IsBounded (c ∷ caps)
IsBounded-by c caps numeric there =
    numeric_least c caps numeric (or_left (is_unavailable c) (any is_unavailable caps) there)

fourth_bounds : (a b c d e : Cap) → IsNumeric d → IsBounded (a ∷ b ∷ c ∷ d ∷ e ∷ [])
fourth_bounds a b c d e numeric = IsBounded-after a (b ∷ c ∷ d ∷ e ∷ []) (
    IsBounded-after b (c ∷ d ∷ e ∷ [])
      (IsBounded-after c (d ∷ e ∷ []) (IsBounded-by d (e ∷ []) numeric)))

second_bounds : (a b : Cap) → IsNumeric b → IsBounded (a ∷ b ∷ [])
second_bounds a b numeric = IsBounded-after a (b ∷ []) (IsBounded-by b [] numeric)

module _ (r : FactsRules) (as_of : ℕ) (i : FactInputs) where
  csp_over_returns : (per : Option ℕ) → (q : Option ℕ) × (csp_capacity_over r as_of i per ≡ ok q)
  csp_over_returns none = (none, refl)
  csp_over_returns (some per) =
      let reserve = reserve_of r.min_cash_reserve_usd in
      smallest_returns (csp_caps r as_of i per) (
        fourth_bounds (order_cap r.max_contracts_per_order)
          (usd_cap r.max_collateral_per_underlying_usd (existing_collateral r as_of i) per)
          (ratio_cap r.max_collateral_per_underlying_ratio (account_value r as_of i)
            (existing_collateral r as_of i) per)
          (cash_cap reserve (settled_cash r as_of i) per)
          (total_cap r.max_total_csp_collateral_ratio (settled_cash r as_of i)
            (reserved_cash r as_of i) per)
          (cash_cap-IsNumeric reserve (settled_cash r as_of i) per))

  csp_capacity_returns : (q : Option ℕ) × (csp_capacity r as_of i ≡ ok q)
  unfolding csp_capacity
  csp_capacity_returns = csp_over_returns (collateral r as_of i)

  cc_capacity_returns : (q : Option ℕ) × (cc_capacity r as_of i ≡ ok q)
  unfolding cc_capacity
  cc_capacity_returns =
      let d = coverage_of r.cc_max_lot_coverage_ratio in
      let owned = owned_of i.instrument.underlying (positions r as_of i) in
      smallest_returns (cc_caps r as_of i) (
        second_bounds (order_cap r.max_contracts_per_order)
          (coverage_cap i.instrument.multiplier d (covering r as_of i call) owned)
          (coverage_cap-IsNumeric i.instrument.multiplier d (covering r as_of i call) owned))

  pub open_returns : (right : OptionRight) → (q : Option ℕ) × (open_capacity r as_of i right ≡ ok q)
  open_returns put = csp_capacity_returns
  open_returns call = cc_capacity_returns

  -- What the quantities of a decision keep to, whatever the capacity.
  pub record IsRemaining (capacity : Option ℕ) (q : Quantities) : Type 0 where
    pub within_target :
        (left : ℕ)
        → q.remaining_quantity ≡ some left
        → (target : ℕ) × ((q.initial_quantity ≡ some target)
            × (left + fills_total r as_of i ≤ target))
    pub within_capacity :
        (left : ℕ)
        → q.remaining_quantity ≡ some left
        → (most : ℕ) × ((capacity ≡ some most) × (left ≤ most))

  remaining_target :
      (target capacity : Option ℕ) (fills left : ℕ)
      → remaining target capacity fills ≡ some left
      → (t : ℕ) × ((target ≡ some t) × (left + fills ≤ t))
  remaining_target (some t) (some most) fills left h = elim (Bool-cases (ltb t fills)) [
    | inl over ↦ absurd (let h' = rw over at h in cc)
    | inr fits ↦
        let h' : some (min (t - fills) most) ≡ some left = rw fits at h in
        let same : min (t - fills) most ≡ left = cc in (t, (refl, ground arith))
  ]
  remaining_target (some t) none fills left h = absurd cc
  remaining_target none capacity fills left h = absurd cc

  remaining_capacity :
      (target capacity : Option ℕ) (fills left : ℕ)
      → remaining target capacity fills ≡ some left
      → (most : ℕ) × ((capacity ≡ some most) × (left ≤ most))
  remaining_capacity (some t) (some most) fills left h = elim (Bool-cases (ltb t fills)) [
    | inl over ↦ absurd (let h' = rw over at h in cc)
    | inr fits ↦
        let h' : some (min (t - fills) most) ≡ some left = rw fits at h in
        let same : min (t - fills) most ≡ left = cc in (most, (refl, ground arith))
  ]
  remaining_capacity (some t) none fills left h = absurd cc
  remaining_capacity none capacity fills left h = absurd cc

  pub quantities-IsRemaining :
      (target capacity : Option ℕ)
      → IsRemaining capacity (quantities target capacity (fills_total r as_of i))
  quantities-IsRemaining target capacity = record {
    within_target = λ left h. remaining_target target capacity (fills_total r as_of i) left h;
    within_capacity = λ left h. remaining_capacity target capacity (fills_total r as_of i) left h;
  }

  returns_for :
      (purpose : FactsPurpose) → (q : Quantities) × (quantities_for r as_of i purpose ≡ ok q)
  returns_for to_open =
      let open_q = open_returns i.instrument.right in
      let target = or_established i.established_target_quantity open_q.0 in
      (quantities target open_q.0 (fills_total r as_of i), rw open_q.1 refl)
  returns_for (to_close book_short) = (_, refl)
  returns_for (to_manage book_short) = (_, refl)

  -- The quantities of a decision are always computed: a least capacity is only asked for where there is
  -- one, so it never raises.
  pub compute_decision_facts_total : (q : Quantities) × (compute_decision_facts r as_of i ≡ ok q)
  unfolding compute_decision_facts
  compute_decision_facts_total = returns_for i.purpose
