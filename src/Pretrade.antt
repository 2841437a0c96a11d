-- ===== src/Pretrade.antt =====
-- domain/pretrade.py: the checks on a sell-to-open leg before it is placed, with the two formulas of
-- domain/facts_compute.py that they share. A value is an exact fraction; the texts of the details are left out.
pub mod Bounds
pub mod Recent
pub mod Eligible
mod Tests
use wheelta_robinhood_agent.Common.{
  ℕ, ◌+◌, ◌*◌, Bool, true, false, not, ◌&&◌, ◌||◌, Option, none, some, List, [], ◌∷◌, map, all,
  keep_if, is_empty, leb, if◌then◌else◌, ℤ, pos, pos_part, neg_part, ltb_ℤ, of_diff,
}
use wheelta_robinhood_agent.Enums.{OptionRight, put, call}
use wheelta_robinhood_agent.FactsRules.{
  FactsRuleMarker, unset, no_limit, agent_discretion, CountSetting, marker, count, RatioSetting,
  ratio_marker, ratio, Decimal, scale,
}
use wheelta_robinhood_agent.Facts.Reads.{is_recent}

pub record PretradeRules : Type 0 where
  pub min_dte : CountSetting
  pub max_dte : CountSetting
  pub min_abs_delta : RatioSetting
  pub max_abs_delta : RatioSetting
  pub min_cushion_ratio : RatioSetting
  pub min_annualized_yield_ratio : RatioSetting
  pub option_quote_max_age_seconds : CountSetting
  pub equity_quote_max_age_seconds : CountSetting

pub data CheckName : Type 0 where
  dte_check delta_check cushion_check annualized_yield_check : CheckName

pub data CheckStatus : Type 0 where
  pass fail missing : CheckStatus

pub record LegCheck : Type 0 where
  pub check : CheckName
  pub status : CheckStatus

-- What is read of an `OptionInstrument`; the expiration is a day.
pub record Contract : Type 0 where
  pub right : OptionRight
  pub strike : ℕ
  pub expiration : ℕ

-- What is read of a `Quote`; the delta by its size.
pub record LegQuote : Type 0 where
  pub as_of : ℕ
  pub bid : ℕ
  pub abs_delta : Option Decimal

pub record Spot : Type 0 where
  pub as_of : ℕ
  pub price : ℕ

pub record OpeningLeg : Type 0 where
  pub option_id : ℕ
  pub instrument : Option Contract
  pub option_quote : Option LegQuote
  pub underlying_quote : Option Spot

pub record LegValidation : Type 0 where
  pub option_id : ℕ
  pub checks : List LegCheck

-- A numerator over a positive denominator.
pub record Value : Type 0 where
  pub numerator : ℤ
  pub denominator : ℕ

abbrev pub is_pass : CheckStatus → Bool
is_pass pass = true
is_pass fail = false
is_pass missing = false

-- `LegValidation.passed`
abbrev pub passed : LegValidation → Bool
passed v = all (λ c. is_pass c.status) v.checks

abbrev pub scaled : Value → Decimal → ℤ
scaled v d = of_diff (pos_part v.numerator * scale d) (neg_part v.numerator * scale d)

-- `value < limit` and `value > limit`
abbrev pub is_below : Value → Decimal → Bool
is_below v d = ltb_ℤ (scaled v d) (pos (d.digits * v.denominator))

abbrev pub is_above : Value → Decimal → Bool
is_above v d = ltb_ℤ (pos (d.digits * v.denominator)) (scaled v d)

abbrev pub is_unset : Option RatioSetting → Bool
is_unset none = false
is_unset (some (ratio d)) = false
is_unset (some (ratio_marker unset)) = true
is_unset (some (ratio_marker no_limit)) = false
is_unset (some (ratio_marker agent_discretion)) = false

abbrev pub breaks : (Decimal → Bool) → Option RatioSetting → Bool
breaks broken none = false
breaks broken (some (ratio d)) = broken d
breaks broken (some (ratio_marker m)) = false

-- `_compare`
unfoldable pub compare_bounds : Value → Option RatioSetting → Option RatioSetting → CheckStatus
compare_bounds v lower upper =
    if is_unset lower || is_unset upper
    then missing
    else if breaks (is_below v) lower || breaks (is_above v) upper
    then fail
    else pass

abbrev pub of_count : CountSetting → RatioSetting
of_count (count n) = ratio (record { digits = n; places = 0 })
of_count (marker m) = ratio_marker m

-- `_stale_reason`, as whether the observation can be used.
abbrev pub usable_quote : ℕ → CountSetting → Option LegQuote → Option LegQuote
usable_quote as_of age none = none
usable_quote as_of age (some q) = if is_recent as_of q.as_of age then some q else none

abbrev pub usable_price : ℕ → CountSetting → Option Spot → Option ℕ
usable_price as_of age none = none
usable_price as_of age (some s) = if is_recent as_of s.as_of age then some s.price else none

-- `cushion_ratio`
unfoldable pub cushion_ratio : OptionRight → ℕ → ℕ → Value
cushion_ratio put strike price = record { numerator = of_diff price strike; denominator = price }
cushion_ratio call strike price = record { numerator = of_diff strike price; denominator = price }

-- `annualized_ratio`
unfoldable pub annualized_ratio : ℕ → ℕ → ℕ → Value
annualized_ratio premium collateral dte = record {
  numerator = pos (premium * 365);
  denominator = collateral * dte;
}

abbrev pub delta_found : PretradeRules → Option Decimal → CheckStatus
delta_found rules none = missing
delta_found rules (some d) =
    compare_bounds (record { numerator = pos d.digits; denominator = scale d })
      (some rules.min_abs_delta) (some rules.max_abs_delta)

abbrev pub delta_status : PretradeRules → Option LegQuote → CheckStatus
delta_status rules none = missing
delta_status rules (some q) = delta_found rules q.abs_delta

abbrev pub cushion_status : PretradeRules → OptionRight → ℕ → Option ℕ → CheckStatus
cushion_status rules right strike none = missing
cushion_status rules right strike (some price) =
    compare_bounds (cushion_ratio right strike price) (some rules.min_cushion_ratio) none

abbrev pub collateral_price : OptionRight → ℕ → Option ℕ → Option ℕ
collateral_price put strike price = some strike
collateral_price call strike price = price

abbrev pub yield_status : PretradeRules → Option LegQuote → Option ℕ → ℤ → CheckStatus
yield_status rules none collateral dte = missing
yield_status rules (some q) none dte = missing
yield_status rules (some q) (some collateral) dte =
    if not (ltb_ℤ (pos 0) dte)
    then missing
    else compare_bounds (annualized_ratio q.bid collateral (pos_part dte))
        (some rules.min_annualized_yield_ratio) none

abbrev pub dte_status : PretradeRules → ℤ → CheckStatus
dte_status rules dte =
    compare_bounds (record { numerator = dte; denominator = 1 }) (some (of_count rules.min_dte))
      (some (of_count rules.max_dte))

abbrev check_of : CheckName → CheckStatus → LegCheck
check_of check status = record { check = check; status = status }

-- The day of a time at the market, which the time zone database gives.
module _ (market_date : ℕ → ℕ) (rules : PretradeRules) (as_of : ℕ) where
  -- `dte_days`
  abbrev pub dte_days : ℕ → ℤ
  dte_days expiration = of_diff expiration (market_date as_of)

  abbrev pub checks_of : Contract → Option LegQuote → Option ℕ → List LegCheck
  checks_of contract quote price =
      check_of dte_check (dte_status rules (dte_days contract.expiration))
      ∷ check_of delta_check (delta_status rules quote)
      ∷ check_of cushion_check (cushion_status rules contract.right contract.strike price)
      ∷ check_of annualized_yield_check (
          yield_status rules quote (collateral_price contract.right contract.strike price)
            (dte_days contract.expiration))
      ∷ []

  abbrev pub checks_for : OpeningLeg → Option Contract → List LegCheck
  checks_for leg none =
      check_of dte_check missing
      ∷ check_of delta_check missing
      ∷ check_of cushion_check missing
      ∷ check_of annualized_yield_check missing
      ∷ []
  checks_for leg (some contract) =
      checks_of contract (usable_quote as_of rules.option_quote_max_age_seconds leg.option_quote)
        (usable_price as_of rules.equity_quote_max_age_seconds leg.underlying_quote)

  -- `validate_opening_leg`, at an aware time.
  unfoldable pub validate_opening_leg : OpeningLeg → LegValidation
  unfolding compare_bounds is_recent cushion_ratio annualized_ratio
  validate_opening_leg leg = record {
    option_id = leg.option_id;
    checks = checks_for leg leg.instrument;
  }

abbrev pub none_failed : List LegValidation → Option (List LegValidation)
none_failed [] = none
none_failed (v ∷ vs) = some (v ∷ vs)

-- `pretrade_feedback`, as the legs that it names.
unfoldable pub pretrade_feedback : List LegValidation → Option (List LegValidation)
pretrade_feedback validations = none_failed (keep_if (λ v. not (passed v)) validations)
