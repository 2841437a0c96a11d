-- ===== src/FactsRules.antt =====
-- domain/facts_rules.py: the rule values that the facts and the checks before a placement read. A ratio is a
-- decimal, its digits and how many of them follow the point; an amount of money is a natural number of a fixed unit.
use wheelta_robinhood_agent.Common.{ℕ, zero, suc, ◌*◌, ◌<◌, arith}

-- `no_limit` is `NONE`.
pub data FactsRuleMarker : Type 0 where
  unset no_limit agent_discretion : FactsRuleMarker

pub data CountSetting : Type 0 where
  marker : FactsRuleMarker → CountSetting
  count : ℕ → CountSetting

-- A `Decimal` that is not negative.
pub record Decimal : Type 0 where
  pub digits : ℕ
  pub places : ℕ

-- The two uses of `DecimalSetting`: an amount of money, and a ratio.
pub data MoneySetting : Type 0 where
  money_marker : FactsRuleMarker → MoneySetting
  amount : ℕ → MoneySetting

pub data RatioSetting : Type 0 where
  ratio_marker : FactsRuleMarker → RatioSetting
  ratio : Decimal → RatioSetting

abbrev pub power_of_ten : ℕ → ℕ
power_of_ten zero = 1
power_of_ten (suc n) = 10 * power_of_ten n

pub 0<power_of_ten : (n : ℕ) → 0 < power_of_ten n
0<power_of_ten zero = omega arith
0<power_of_ten (suc n) = omega (arith, 0<power_of_ten n)

abbrev pub scale : Decimal → ℕ
scale d = power_of_ten d.places

pub record FactsRules : Type 0 where
  pub max_contracts_per_order : CountSetting
  pub max_collateral_per_underlying_usd : MoneySetting
  pub max_collateral_per_underlying_ratio : RatioSetting
  pub max_total_csp_collateral_ratio : RatioSetting
  pub min_cash_reserve_usd : MoneySetting
  pub cc_max_lot_coverage_ratio : RatioSetting
  pub option_quote_max_age_seconds : CountSetting
  pub equity_quote_max_age_seconds : CountSetting
  pub account_state_max_age_seconds : CountSetting
