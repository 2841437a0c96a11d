-- ===== src/Pretrade/Eligible.antt =====
-- Which legs the checks of domain/pretrade.py let through.
use wheelta_robinhood_agent.Common.{
  ℕ, ◌*◌, ◌-◌, ◌<◌, ◌≡◌, ◌↔◌, refl, ap, ap₂, ◌∙◌, Bool, true, false, not, ◌&&◌, inl, inr,
  Bool-cases, Option, none, some, List, [], ◌∷◌, map, all, keep_if, All, ℤ, pos, pos_part, ltb_ℤ,
  of_diff, arith,
}
use wheelta_robinhood_agent.Enums.{OptionRight, put, call}
use wheelta_robinhood_agent.FactsRules.{Decimal, scale}
use wheelta_robinhood_agent.Pretrade.{
  PretradeRules, CheckStatus, Contract, LegQuote, Spot, OpeningLeg, LegValidation, Value, is_pass,
  passed, of_count, usable_quote, usable_price, cushion_ratio, annualized_ratio, delta_found,
  delta_status, cushion_status, collateral_price, yield_status, dte_status, dte_days, checks_of,
  checks_for, validate_opening_leg, pretrade_feedback, none_failed,
}
use wheelta_robinhood_agent.Pretrade.Recent.{
  IsRecent, usable_quote_iff, usable_price_iff, DaysAtLeast, DaysAtMost, DaysAtLeast-iff,
  DaysAtMost-iff, days_left,
}
use wheelta_robinhood_agent.Pretrade.Bounds.{AtLeast, AtMost, both_iff, compare_iff}

abbrev whole : ℤ → Value
whole n = record { numerator = n; denominator = 1 }

abbrev of_decimal : Decimal → Value
of_decimal d = record { numerator = pos d.digits; denominator = scale d }

-- The price that the collateral of a share is reckoned at.
abbrev pub collateral_at : OptionRight → ℕ → ℕ → ℕ
collateral_at put strike price = strike
collateral_at call strike price = price

collateral_some :
    (right : OptionRight) (strike price : ℕ)
    → collateral_price right strike (some price) ≡ some (collateral_at right strike price)
collateral_some put strike price = refl
collateral_some call strike price = refl

-- The part of the price by which a put's strike is below it, or a call's above it.
abbrev pub out_of_money : OptionRight → ℕ → ℕ → Value
out_of_money put strike price = record { numerator = of_diff price strike; denominator = price }
out_of_money call strike price = record { numerator = of_diff strike price; denominator = price }

cushion_ratio-out_of_money :
    (right : OptionRight) (strike price : ℕ)
    → cushion_ratio right strike price ≡ out_of_money right strike price
unfolding cushion_ratio
cushion_ratio-out_of_money put strike price = refl
cushion_ratio-out_of_money call strike price = refl

annualized_days :
    (premium collateral from until : ℕ)
    → annualized_ratio premium collateral (pos_part (of_diff until from))
      ≡ record { numerator = pos (premium * 365); denominator = collateral * (until - from) }
unfolding annualized_ratio
annualized_days premium collateral from until = rw (days_left from until) refl

later_day : (from until : ℕ) → (ltb_ℤ (pos 0) (of_diff until from) ≡ true) ↔ (from < until)
later_day from until = ((λ h. ground arith), (λ h. ground arith))

module _ (market_date : ℕ → ℕ) (rules : PretradeRules) (as_of : ℕ) where
  -- A contract, a quote with its delta and a price of the underlying that keep to every rule: the days
  -- to expiration from today, the delta, the part of the price by which the contract is out of the
  -- money, and the year's part of its collateral that the bid brings in.
  pub record IsGood (contract : Contract) (q : LegQuote) (delta : Decimal) (price : ℕ)
      : Type 0 where
    pub dte_least : DaysAtLeast rules.min_dte (market_date as_of) contract.expiration
    pub dte_most : DaysAtMost rules.max_dte (market_date as_of) contract.expiration
    pub delta_least : AtLeast (some rules.min_abs_delta) (of_decimal delta)
    pub delta_most : AtMost (some rules.max_abs_delta) (of_decimal delta)
    pub cushion_least :
        AtLeast (some rules.min_cushion_ratio) (out_of_money contract.right contract.strike price)
    pub alive : market_date as_of < contract.expiration
    pub yield_least : AtLeast (some rules.min_annualized_yield_ratio) (record {
      numerator = pos (q.bid * 365);
      denominator =
          collateral_at contract.right contract.strike price
          * (contract.expiration - market_date as_of);
    })

  -- A leg whose contract was read and whose quotes are recent, and that keeps to every rule.
  pub record IsEligible (leg : OpeningLeg) : Type 0 where
    pub contract : Contract
    pub q : LegQuote
    pub delta : Decimal
    pub spot : Spot
    pub contract_read : leg.instrument ≡ some contract
    pub quote_read : leg.option_quote ≡ some q
    pub quote_recent : IsRecent as_of q.as_of rules.option_quote_max_age_seconds
    pub delta_reported : q.abs_delta ≡ some delta
    pub price_read : leg.underlying_quote ≡ some spot
    pub price_recent : IsRecent as_of spot.as_of rules.equity_quote_max_age_seconds
    pub good : IsGood contract q delta spot.price

  yield_iff :
      (q : LegQuote) (collateral : ℕ) (dte : ℤ)
      → (is_pass (yield_status rules (some q) (some collateral) dte) ≡ true) ↔ (
          (ltb_ℤ (pos 0) dte ≡ true)
          × AtLeast
              (some rules.min_annualized_yield_ratio)
              (annualized_ratio q.bid collateral (pos_part dte)))
  yield_iff q collateral dte =
      let v = annualized_ratio q.bid collateral (pos_part dte) in
      let c = compare_iff v (some rules.min_annualized_yield_ratio) none in
      elim (Bool-cases (ltb_ℤ (pos 0) dte)) [
        | inl later ↦ rw later ((λ h. (refl, (c.0 h).0)), (λ h. c.1 (h.1, tt)))
        | inr over ↦ rw over ((λ h. absurd cc), (λ h. absurd (let no_way = h.0 in cc)))
      ]

  abbrev all_pass : (a b c d : CheckStatus) → Bool
  all_pass a b c d = is_pass a && (is_pass b && (is_pass c && (is_pass d && true)))

  four :
      (a b c d : CheckStatus)
      → (all_pass a b c d ≡ true)
        ↔ ((is_pass a ≡ true) × ((is_pass b ≡ true) × ((is_pass c ≡ true) × (is_pass d ≡ true))))
  four a b c d =
      let inner = both_iff (is_pass d) true in
      let third = both_iff (is_pass c) (is_pass d && true) in
      let second = both_iff (is_pass b) (is_pass c && (is_pass d && true)) in
      let first = both_iff (is_pass a) (is_pass b && (is_pass c && (is_pass d && true))) in
      (
        (λ h.
            let p = first.0 h in
            let q = second.0 p.1 in
            let s = third.0 q.1 in let t = inner.0 s.1 in (p.0, (q.0, (s.0, t.0)))),
        (λ h. first.1 (h.0, second.1 (h.1.0, third.1 (h.1.1.0, inner.1 (h.1.1.1, refl))))),
      )

  module _ (contract : Contract) (q : LegQuote) (delta : Decimal) (price : ℕ)
      (reported : q.abs_delta ≡ some delta) where
    IsGood-iff :
        (all_pass
            (dte_status rules (dte_days market_date rules as_of contract.expiration))
            (delta_status rules (some q))
            (cushion_status rules contract.right contract.strike (some price))
            (yield_status rules
              (some q)
              (collateral_price contract.right contract.strike (some price))
              (dte_days market_date rules as_of contract.expiration))
          ≡ true)
        ↔ IsGood contract q delta price
    IsGood-iff =
        let dte = dte_days market_date rules as_of contract.expiration in
        let collateral = collateral_at contract.right contract.strike price in
        let a =
          compare_iff (whole dte) (some (of_count rules.min_dte)) (some (of_count rules.max_dte)) in
        let b =
          compare_iff (of_decimal delta) (some rules.min_abs_delta) (some rules.max_abs_delta) in
        let c =
          compare_iff (cushion_ratio contract.right contract.strike price)
            (some rules.min_cushion_ratio) none in
        let d = yield_iff q collateral dte in
        let least = DaysAtLeast-iff rules.min_dte (market_date as_of) contract.expiration in
        let most = DaysAtMost-iff rules.max_dte (market_date as_of) contract.expiration in
        let later = later_day (market_date as_of) contract.expiration in
        let cushion = cushion_ratio-out_of_money contract.right contract.strike price in
        let brings = annualized_days q.bid collateral (market_date as_of) contract.expiration in
        let all_four =
          four (dte_status rules dte) (delta_found rules (some delta))
            (cushion_status rules contract.right contract.strike (some price))
            (yield_status rules (some q) (some collateral) dte) in
        rw (reported, collateral_some contract.right contract.strike price)
          (
            (λ h.
                let p = all_four.0 h in
                let x = a.0 p.0 in
                let y = b.0 p.1.0 in
                let z = c.0 p.1.1.0 in
                let w = d.0 p.1.1.1 in
                record {
                  dte_least = least.0 x.0;
                  dte_most = most.0 x.1;
                  delta_least = y.0;
                  delta_most = y.1;
                  cushion_least = rw⁻¹ cushion z.0;
                  alive = later.0 w.0;
                  yield_least = rw⁻¹ brings w.1;
                }),
            (λ g. all_four.1 (
              a.1 (least.1 g.dte_least, most.1 g.dte_most),
              (
                b.1 (g.delta_least, g.delta_most),
                (
                  c.1 (rw cushion g.cushion_least, tt),
                  d.1 (later.1 g.alive, rw brings g.yield_least),
                ),
              ),
            )),
          )

  abbrev passes : Contract → Option LegQuote → Option ℕ → Bool
  passes contract quote price =
      all (λ c. is_pass c.status) (checks_of market_date rules as_of contract quote price)

  -- The four checks of a contract, one by one.
  each_pass :
      (contract : Contract) (quote : Option LegQuote) (price : Option ℕ)
      → passes contract quote price ≡ true
      → (is_pass (delta_status rules quote) ≡ true)
        × (is_pass (cushion_status rules contract.right contract.strike price) ≡ true)
  each_pass contract quote price h =
      let dte = dte_days market_date rules as_of contract.expiration in
      let p =
        (four (dte_status rules dte) (delta_status rules quote)
            (cushion_status rules contract.right contract.strike price)
            (yield_status rules quote (collateral_price contract.right contract.strike price)
              dte)).0
          h in
      (p.1.0, p.1.1.0)

  module _ (leg : OpeningLeg) where
    with_delta :
        (contract : Contract) (q : LegQuote) (price : ℕ) (delta : Option Decimal)
        → leg.instrument ≡ some contract
        → usable_quote as_of rules.option_quote_max_age_seconds leg.option_quote ≡ some q
        → usable_price as_of rules.equity_quote_max_age_seconds leg.underlying_quote ≡ some price
        → q.abs_delta ≡ delta
        → passes contract (some q) (some price) ≡ true
        → IsEligible leg
    with_delta contract q price none e f g reported h =
        let p = (each_pass contract (some q) (some price) h).0 in
        absurd (let p' = rw reported at p in cc)
    with_delta contract q price (some delta) e f g reported h =
        let quoted =
          (usable_quote_iff as_of rules.option_quote_max_age_seconds leg.option_quote q).0 f in
        let (spot, (is_seen, (at_price, young))) =
          (usable_price_iff as_of rules.equity_quote_max_age_seconds leg.underlying_quote price).0
            g in
        record {
          contract = contract;
          q = q;
          delta = delta;
          spot = spot;
          contract_read = e;
          quote_read = quoted.0;
          quote_recent = quoted.1;
          delta_reported = reported;
          price_read = is_seen;
          price_recent = young;
          good = rw at_price ((IsGood-iff contract q delta price reported).0 h);
        }

    found-IsEligible :
        (contract : Contract) (quote : Option LegQuote) (price : Option ℕ)
        → leg.instrument ≡ some contract
        → usable_quote as_of rules.option_quote_max_age_seconds leg.option_quote ≡ quote
        → usable_price as_of rules.equity_quote_max_age_seconds leg.underlying_quote ≡ price
        → passes contract quote price ≡ true
        → IsEligible leg
    found-IsEligible contract none price e f g h =
        absurd (let p = (each_pass contract none price h).0 in cc)
    found-IsEligible contract (some q) none e f g h =
        absurd (let p = (each_pass contract (some q) none h).1 in cc)
    found-IsEligible contract (some q) (some price) e f g h =
        with_delta contract q price q.abs_delta e f g refl h

    checks-IsEligible :
        (inst : Option Contract)
        → leg.instrument ≡ inst
        → all (λ c. is_pass c.status) (checks_for market_date rules as_of leg inst) ≡ true
        → IsEligible leg
    checks-IsEligible none e h = absurd cc
    checks-IsEligible (some contract) e h =
        found-IsEligible contract
          (usable_quote as_of rules.option_quote_max_age_seconds leg.option_quote)
          (usable_price as_of rules.equity_quote_max_age_seconds leg.underlying_quote) e refl refl h

    validate_iff :
        (passed (validate_opening_leg market_date rules as_of leg) ≡ true) ↔ IsEligible leg
    unfolding validate_opening_leg
    validate_iff = (
      (λ h. checks-IsEligible leg.instrument refl h),
      (λ w.
          ap (λ inst. all (λ c. is_pass c.status) (checks_for market_date rules as_of leg inst))
            w.contract_read
          ∙ ap₂ (passes w.contract)
              ((usable_quote_iff as_of rules.option_quote_max_age_seconds leg.option_quote w.q).1
                (w.quote_read, w.quote_recent))
              ((usable_price_iff as_of rules.equity_quote_max_age_seconds leg.underlying_quote
                  w.spot.price).1
                (w.spot, (w.price_read, (refl, w.price_recent))))
          ∙ (IsGood-iff w.contract w.q w.delta w.spot.price w.delta_reported).1 w.good),
    )

  kept_cons :
      (v : LegValidation) (rest : List LegValidation) (b : Bool)
      → (none_failed (elim (not b) [ true ↦ v ∷ rest | false ↦ rest ]) ≡ none)
        ↔ ((b ≡ true) × (none_failed rest ≡ none))
  kept_cons v rest true = ((λ h. (refl, h)), (λ h. h.1))
  kept_cons v rest false = ((λ h. absurd cc), (λ h. absurd (let no_way = h.0 in cc)))

  feedback_cons :
      (v : LegValidation) (vs : List LegValidation)
      → (pretrade_feedback (v ∷ vs) ≡ none) ↔ ((passed v ≡ true) × (pretrade_feedback vs ≡ none))
  unfolding pretrade_feedback
  feedback_cons v vs = kept_cons v (keep_if (λ u. not (passed u)) vs) (passed v)

  -- The checks before a placement give no feedback exactly when every leg is eligible: its contract was
  -- read; its quote and the price of its underlying were read, by now and within the seconds that the
  -- rules allow; it has a delta and expires after today; and its days to expiration, its delta, the part
  -- of the price by which it is out of the money, and the part of its collateral that its bid brings in a
  -- year keep to every bound, none of which is still to be decided.
  pub feedback-IsEligible :
      (legs : List OpeningLeg)
      → (pretrade_feedback (map (validate_opening_leg market_date rules as_of) legs) ≡ none)
        ↔ All IsEligible legs
  unfolding pretrade_feedback
  feedback-IsEligible [] = ((λ h. tt), (λ h. refl))
  feedback-IsEligible (leg ∷ legs) =
      let here = validate_iff leg in
      let rest = feedback-IsEligible legs in
      let split =
        feedback_cons (validate_opening_leg market_date rules as_of leg)
          (map (validate_opening_leg market_date rules as_of) legs) in
      (
        (λ h. let p = split.0 h in (here.0 p.0, rest.0 p.1)),
        (λ h. split.1 (here.1 h.0, rest.1 h.1)),
      )
