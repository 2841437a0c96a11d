-- ===== src/Pretrade/Bounds.antt =====
-- The bounds that `_compare` of domain/pretrade.py tests, as inequalities.
use wheelta_robinhood_agent.Common.{
  ℕ, ◌+◌, ◌*◌, ◌≤◌, ◌≡◌, ◌↔◌, refl, sym, ◌∙◌, Bool, true, false, not, ◌&&◌, ◌||◌, Option, none,
  some, if◌then◌else◌, pos, pos_part, neg_part, ltb_ℤ, of_diff, arith,
}
use wheelta_robinhood_agent.FactsRules.{
  unset, no_limit, agent_discretion, RatioSetting, ratio_marker, ratio, Decimal, scale,
}
use wheelta_robinhood_agent.Pretrade.{
  pass, fail, missing, Value, is_pass, is_below, is_above, is_unset, breaks, compare_bounds,
}

-- A value keeps to a bound that is set; one that is to be decided lets nothing through.
abbrev pub AtLeast : Option RatioSetting → Value → Type 0
AtLeast none v = Unit {0}
AtLeast (some (ratio d)) v =
    d.digits * v.denominator + neg_part v.numerator * scale d ≤ pos_part v.numerator * scale d
AtLeast (some (ratio_marker unset)) v = true ≡ false
AtLeast (some (ratio_marker no_limit)) v = Unit {0}
AtLeast (some (ratio_marker agent_discretion)) v = Unit {0}

abbrev pub AtMost : Option RatioSetting → Value → Type 0
AtMost none v = Unit {0}
AtMost (some (ratio d)) v =
    pos_part v.numerator * scale d ≤ d.digits * v.denominator + neg_part v.numerator * scale d
AtMost (some (ratio_marker unset)) v = true ≡ false
AtMost (some (ratio_marker no_limit)) v = Unit {0}
AtMost (some (ratio_marker agent_discretion)) v = Unit {0}

-- One side of a bound, as the code tests it.
abbrev keeps : (Decimal → Bool) → Option RatioSetting → Bool
keeps broken s = not (is_unset s) && not (breaks broken s)

not_below : (a b limit : ℕ) → (not (ltb_ℤ (of_diff a b) (pos limit)) ≡ true) ↔ (limit + b ≤ a)
not_below a b limit = ((λ h. ground arith), (λ h. ground arith))

not_above : (a b limit : ℕ) → (not (ltb_ℤ (pos limit) (of_diff a b)) ≡ true) ↔ (a ≤ limit + b)
not_above a b limit = ((λ h. ground arith), (λ h. ground arith))

AtLeast-iff : (s : Option RatioSetting) (v : Value) → (keeps (is_below v) s ≡ true) ↔ AtLeast s v
AtLeast-iff none v = ((λ h. tt), (λ h. refl))
AtLeast-iff (some (ratio d)) v =
    not_below (pos_part v.numerator * scale d) (neg_part v.numerator * scale d)
      (d.digits * v.denominator)
AtLeast-iff (some (ratio_marker unset)) v = ((λ h. sym h), (λ h. sym h))
AtLeast-iff (some (ratio_marker no_limit)) v = ((λ h. tt), (λ h. refl))
AtLeast-iff (some (ratio_marker agent_discretion)) v = ((λ h. tt), (λ h. refl))

AtMost-iff : (s : Option RatioSetting) (v : Value) → (keeps (is_above v) s ≡ true) ↔ AtMost s v
AtMost-iff none v = ((λ h. tt), (λ h. refl))
AtMost-iff (some (ratio d)) v =
    not_above (pos_part v.numerator * scale d) (neg_part v.numerator * scale d)
      (d.digits * v.denominator)
AtMost-iff (some (ratio_marker unset)) v = ((λ h. sym h), (λ h. sym h))
AtMost-iff (some (ratio_marker no_limit)) v = ((λ h. tt), (λ h. refl))
AtMost-iff (some (ratio_marker agent_discretion)) v = ((λ h. tt), (λ h. refl))

passes_when :
    (a b c d : Bool)
    → is_pass (if a || b then missing else if c || d then fail else pass)
      ≡ ((not a && not c) && (not b && not d))
passes_when true b c d = refl
passes_when false true c d = ground arith
passes_when false false true d = refl
passes_when false false false true = refl
passes_when false false false false = refl

pub both_iff : (a b : Bool) → ((a && b) ≡ true) ↔ ((a ≡ true) × (b ≡ true))
both_iff true b = ((λ h. (refl, h)), (λ h. h.1))
both_iff false b = ((λ h. absurd cc), (λ h. absurd (let no_way = h.0 in cc)))

pub compare_iff :
    (v : Value) (lower upper : Option RatioSetting)
    → (is_pass (compare_bounds v lower upper) ≡ true) ↔ (AtLeast lower v × AtMost upper v)
unfolding compare_bounds
compare_iff v lower upper =
    let e =
      passes_when (is_unset lower) (is_unset upper) (breaks (is_below v) lower)
        (breaks (is_above v) upper) in
    let both = both_iff (keeps (is_below v) lower) (keeps (is_above v) upper) in
    let l = AtLeast-iff lower v in
    let u = AtMost-iff upper v in
    ((λ h. let p = both.0 (sym e ∙ h) in (l.0 p.0, u.0 p.1)), (λ h. e ∙ both.1 (l.1 h.0, u.1 h.1)))
