-- ===== src/Facts/Sizing.antt =====
-- What the quantities of domain/facts_compute.py keep to.
use wheelta_robinhood_agent.Common.{ℕ}
use wheelta_robinhood_agent.FactsRules.{FactsRules}
use wheelta_robinhood_agent.Facts.{FactInputs}
use wheelta_robinhood_agent.Facts.Capacity.{reserve_of}
use wheelta_robinhood_agent.Facts.Decision.{
  existing_collateral, account_value, settled_cash, reserved_cash,
}
use wheelta_robinhood_agent.Facts.Within.{
  WithinCount, WithinUsd, WithinRatio, WithinCash, WithinTotal,
}

module _ (r : FactsRules) (as_of : ℕ) (i : FactInputs) where
  -- `m` more contracts keep to every rule on cash-secured puts.
  pub record IsWithin (per m : ℕ) : Type 0 where
    pub order : WithinCount r.max_contracts_per_order m
    pub underlying_usd :
        WithinUsd r.max_collateral_per_underlying_usd (existing_collateral r as_of i) per m
    pub underlying_ratio :
        WithinRatio r.max_collateral_per_underlying_ratio
          (account_value r as_of i)
          (existing_collateral r as_of i)
          per
          m
    pub cash : WithinCash (reserve_of r.min_cash_reserve_usd) (settled_cash r as_of i) per m
    pub total :
        WithinTotal r.max_total_csp_collateral_ratio
          (settled_cash r as_of i)
          (reserved_cash r as_of i)
          per
          m
