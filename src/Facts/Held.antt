-- ===== src/Facts/Held.antt =====
-- The quantities of domain/facts_compute.py against what the account holds.
use native.Mathlib.Nat.{mul-le-mul_right, le_of_mul-le-mul_right}
use wheelta_robinhood_agent.Common.{
  ℕ, ◌+◌, ◌*◌, ◌-◌, ◌≤◌, ◌<◌, ◌≡◌, ◌⊎◌, refl, sym, ap, ◌∙◌, true, false, inl, inr, Bool-cases,
  Option, none, some, List, [], ◌∷◌, any, sum, ℤ, pos, pos_part, ◌==ℤ◌, of_diff, ok, ok-injective,
  arith,
}
use wheelta_robinhood_agent.Enums.{call}
use wheelta_robinhood_agent.FactsRules.{FactsRules, Decimal, scale, 0<power_of_ten}
use wheelta_robinhood_agent.Facts.{FactInputs, to_close, to_manage, PositionsRead, OpenOrdersRead}
use wheelta_robinhood_agent.Facts.Reads.{Cover, positions, orders}
use wheelta_robinhood_agent.Facts.Capacity.{
  Cap, smallest, order_cap, is_unavailable, contracts, shares_of, coverage_of, coverage_cap,
  short_of, closing_of,
}
use wheelta_robinhood_agent.Facts.Decision.{
  Quantities, quantities, quantities_for, close_target, or_established, covering, owned_of,
  cc_capacity, funding_cap, close_from, close_capacity, fills_total, compute_decision_facts,
  at_most_funded,
}
use wheelta_robinhood_agent.Facts.Counted.{
  IsOwned, shares_of-IsOwned, IsShort, short_of-IsShort, IsClosing, closing_of-IsClosing, IsCovered,
  cover-IsCovered,
}
use wheelta_robinhood_agent.Facts.Funded.{
  positions-IsRecent, orders-IsRecent, IsFunding, IsFunding-eq, contracts-paid,
}
use wheelta_robinhood_agent.Pretrade.Recent.{IsRecent}
use wheelta_robinhood_agent.Facts.Within.{WithinCoverage, smallest-Allows, coverage_iff}
use wheelta_robinhood_agent.Facts.Bounds.{or_left, or_right, IsRemaining, quantities-IsRemaining}

cancel_scale : (s d x owned : ℕ) → 0 < s → d ≤ s → s * x ≤ d * owned → x ≤ owned
cancel_scale s d x owned s_pos below h =
    let more : d * owned ≤ s * owned = mul-le-mul_right owned below in
    let scaled : x * s ≤ owned * s = omega (arith, h, more) in le_of_mul-le-mul_right scaled s_pos

booked : (short book fills : ℕ) → (pos short ==ℤ of_diff book fills) ≡ true → short + fills ≡ book
booked short book fills h = ground arith

-- The shares are covered where the cap by coverage is there.
covered_at :
    (k : ℕ)
    → 0 < k
    → (d : Option Decimal) (covered : Option Cover) (owned n : ℕ) → 0 < n
    → ((ratio : Decimal) → d ≡ some ratio → ratio.digits ≤ scale ratio)
    → is_unavailable (coverage_cap (some k) d covered owned) ≡ false
    → WithinCoverage (some k) d covered owned n
    → (c : Cover) × ((covered ≡ some c) × (n * k + c.shares ≤ owned))
unfolding coverage_cap
covered_at k k_pos none covered owned n n_pos at_most_one there within = absurd cc
covered_at k k_pos (some d) none owned n n_pos at_most_one there within = absurd cc
covered_at k k_pos (some d) (some c) owned n n_pos at_most_one there within =
    let one = at_most_one d refl in
    let scale_pos = 0<power_of_ten d.places in
    (c, (refl, cancel_scale (scale d) d.digits (n * k + c.shares) owned scale_pos one within))

module _ (r : FactsRules) (as_of : ℕ) (i : FactInputs) where
  -- `n` more contracts of `k` shares, with what is covered already, in complete and recent reads.
  pub record IsCoverable (k n : ℕ) : Type 0 where
    pub read : PositionsRead
    pub open_orders : OpenOrdersRead
    pub positions_read : i.positions ≡ some read
    pub complete : read.complete ≡ true
    pub positions_recent : IsRecent as_of read.as_of r.account_state_max_age_seconds
    pub orders_read : i.open_orders ≡ some open_orders
    pub orders_recent : IsRecent as_of open_orders.as_of r.account_state_max_age_seconds
    pub owned : ℕ
    pub is_owned : IsOwned i.instrument.underlying read.share_holdings owned
    pub covered : ℕ
    pub is_covered :
        IsCovered call i.instrument.underlying read.short_options open_orders.orders covered
    pub enough : n * k + covered ≤ owned

  covered-IsCoverable :
      (k n : ℕ)
      → ((c : Cover) × ((covering r as_of i call ≡ some c)
            × (n * k + c.shares ≤ owned_of i.instrument.underlying (positions r as_of i))))
      → IsCoverable k n
  unfolding covering
  covered-IsCoverable k n (c, (is_cover, room)) =
      let (p, (read, (q, (found, total)))) =
        cover-IsCovered call i.instrument.underlying (positions r as_of i) (orders r as_of i) c
          is_cover in
      let at_p = positions-IsRecent r as_of i p read in
      let at_q = orders-IsRecent r as_of i q found in
      record {
        read = p;
        open_orders = q;
        positions_read = at_p.0;
        complete = at_p.1.0;
        positions_recent = at_p.1.1;
        orders_read = at_q.0;
        orders_recent = at_q.1;
        owned = shares_of i.instrument.underlying p.share_holdings;
        is_owned = shares_of-IsOwned i.instrument.underlying p.share_holdings;
        covered = c.shares;
        is_covered = total;
        enough = rw read at room;
      }

  -- With a verified positive multiplier and a coverage ratio of at most one, a positive capacity for
  -- covered calls comes from complete and recent reads of the positions and the orders, and its contracts'
  -- shares, with those that short calls and working sells to open of calls on the underlying hold already,
  -- are at most the shares of the underlying that are owned.
  pub cc_capacity-covered :
      (k n : ℕ)
      → i.instrument.multiplier ≡ some k
      → 0 < k
      → 0 < n
      → ((ratio : Decimal)
          → coverage_of r.cc_max_lot_coverage_ratio ≡ some ratio
          → ratio.digits ≤ scale ratio)
      → cc_capacity r as_of i ≡ ok (some n)
      → IsCoverable k n
  unfolding cc_capacity
  cc_capacity-covered k n verified k_pos n_pos at_most_one h =
      let d = coverage_of r.cc_max_lot_coverage_ratio in
      let owned = owned_of i.instrument.underlying (positions r as_of i) in
      let caps : Option ℕ → List Cap = λ m.
        order_cap r.max_contracts_per_order
        ∷ coverage_cap m d (covering r as_of i call) owned
        ∷ [] in
      let h' : smallest (caps (some k)) ≡ ok (some n) =
        sym (ap (λ m. smallest (caps m)) verified) ∙ h in
      let split = smallest-Allows (caps (some k)) n n h' in
      let there =
        or_left (is_unavailable (coverage_cap (some k) d (covering r as_of i call) owned)) false (
          or_right (is_unavailable (order_cap r.max_contracts_per_order))
            (any is_unavailable (coverage_cap (some k) d (covering r as_of i call) owned ∷ []))
            split.0) in
      let allowed = (split.1.0 (omega arith)).1.0 in
      let within = (coverage_iff n n_pos k k_pos d (covering r as_of i call) owned).0 allowed in
      covered-IsCoverable k n
        (covered_at k k_pos d (covering r as_of i call) owned n n_pos at_most_one there within)

  -- Complete and recent reads, and the short contracts, the working buys to close and the funding that
  -- closing `left` contracts keeps within.
  pub record IsClosable (book_short left : ℕ) : Type 0 where
    pub read : PositionsRead
    pub open_orders : OpenOrdersRead
    pub positions_read : i.positions ≡ some read
    pub complete : read.complete ≡ true
    pub positions_recent : IsRecent as_of read.as_of r.account_state_max_age_seconds
    pub orders_read : i.open_orders ≡ some open_orders
    pub orders_recent : IsRecent as_of open_orders.as_of r.account_state_max_age_seconds
    pub short : ℕ
    pub is_short : IsShort i.instrument.broker_instrument_id read.short_options short
    pub on_book : short + sum i.confirmed_fills ≡ book_short
    pub closing : ℕ
    pub is_closing : IsClosing i.instrument.broker_instrument_id open_orders.orders closing
    pub within_short : left ≤ short - closing
    pub within_funding :
        (value : ℤ) (price multiplier : ℕ)
        → IsFunding r as_of i value price multiplier
        → left * (price * multiplier) ≤ pos_part value

  funded_le :
      (available left : ℕ) (funding : Option ℕ)
      → left ≤ at_most_funded available funding
      → (left ≤ available) × ((most : ℕ) → funding ≡ some most → left ≤ most)
  funded_le available left none h = (h, (λ most e. absurd cc))
  funded_le available left (some f) h =
      (omega (arith, h), (λ most e. let same : f ≡ most = cc in omega (arith, same, h)))

  close_from-IsClosable :
      (book_short left most : ℕ) (read : Option PositionsRead) (os : Option OpenOrdersRead)
      → positions r as_of i ≡ read
      → orders r as_of i ≡ os
      → close_from r as_of i book_short read os ≡ some most
      → left ≤ most
      → IsClosable book_short left
  close_from-IsClosable book_short left most (some read) none e f h below = absurd cc
  close_from-IsClosable book_short left most none os e f h below = absurd cc
  close_from-IsClosable book_short left most (some read) (some os) e f h below =
      let short = short_of i.instrument.broker_instrument_id read.short_options in
      let fills = fills_total r as_of i in
      elim (Bool-cases (pos short ==ℤ of_diff book_short fills)) [
        | inr apart ↦ absurd (let h' = rw apart at h in cc)
        | inl same ↦
            let available = short - closing_of i.instrument.broker_instrument_id os.orders in
            let h' : some (at_most_funded available (funding_cap r as_of i)) ≡ some most =
              rw same at h in
            let at_n : at_most_funded available (funding_cap r as_of i) ≡ most = cc in
            let both = funded_le available left (funding_cap r as_of i) (rw at_n below) in
            let at_read = positions-IsRecent r as_of i read e in
            let at_orders = orders-IsRecent r as_of i os f in
            record {
              read = read;
              open_orders = os;
              positions_read = at_read.0;
              complete = at_read.1.0;
              positions_recent = at_read.1.1;
              orders_read = at_orders.0;
              orders_recent = at_orders.1;
              short = short;
              is_short = short_of-IsShort i.instrument.broker_instrument_id read.short_options;
              on_book = booked short book_short fills same;
              closing = closing_of i.instrument.broker_instrument_id os.orders;
              is_closing = closing_of-IsClosing i.instrument.broker_instrument_id os.orders;
              within_short = both.0;
              within_funding = λ value price multiplier funding.
                  contracts-paid value (price * multiplier) left (
                    both.1 (contracts value (price * multiplier))
                      (IsFunding-eq r as_of i value price multiplier funding));
            }
      ]

  closing_capacity :
      (book_short left : ℕ) (capacity : Option ℕ)
      → close_capacity r as_of i book_short ≡ capacity
      → ((most : ℕ) × ((capacity ≡ some most) × (left ≤ most)))
      → IsClosable book_short left
  unfolding close_capacity
  closing_capacity book_short left capacity e bound =
      close_from-IsClosable book_short left bound.0 (positions r as_of i) (orders r as_of i) refl
        refl (e ∙ bound.1.0) bound.1.1

  bounded_close :
      (book_short left : ℕ) (target : Option ℕ) (q : Quantities)
      → quantities target (close_capacity r as_of i book_short) (fills_total r as_of i) ≡ q
      → q.remaining_quantity ≡ some left
      → IsClosable book_short left
        × ((t : ℕ) × ((q.initial_quantity ≡ some t) × (left + fills_total r as_of i ≤ t)))
  bounded_close book_short left target q e h =
      let capacity = close_capacity r as_of i book_short in
      let is : IsRemaining r as_of i capacity q =
        rw⁻¹ e (quantities-IsRemaining r as_of i target capacity) in
      (
        closing_capacity book_short left capacity refl (is.within_capacity left h),
        is.within_target left h,
      )

  -- When a decision to close or manage a position has a remaining quantity, there are complete and recent
  -- reads of the positions and the orders; the contracts that are short there, with the confirmed fills, are
  -- the position's; the quantity is at most those contracts less what working buys to close of the contract
  -- have unfilled; where usable and recent funding, a price and the multiplier are known, it costs at most
  -- that funding; and with the confirmed fills it is at most the target.
  pub closing-IsClosable :
      (book_short left : ℕ) (q : Quantities)
      → (i.purpose ≡ to_close book_short) ⊎ (i.purpose ≡ to_manage book_short)
      → compute_decision_facts r as_of i ≡ ok q
      → q.remaining_quantity ≡ some left
      → IsClosable book_short left
        × ((t : ℕ) × ((q.initial_quantity ≡ some t) × (left + sum i.confirmed_fills ≤ t)))
  unfolding compute_decision_facts
  closing-IsClosable book_short left q (inl close) h e =
      let h' = sym (ap (quantities_for r as_of i) close) ∙ h in
      bounded_close book_short left (close_target i.close_quantity book_short) q (ok-injective h') e
  closing-IsClosable book_short left q (inr manage) h e =
      let h' = sym (ap (quantities_for r as_of i) manage) ∙ h in
      bounded_close book_short left (or_established i.established_target_quantity (some book_short))
        q (ok-injective h') e
