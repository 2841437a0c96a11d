-- ===== src/Facts.antt =====
-- domain/facts_compute.py: how many contracts a decision may be of. The inputs are those that the quantities
-- depend on; the metrics, formula versions and gaps that are recorded beside them are left out, and a value that
-- a gap stands for is absent. Money is a natural number of a fixed unit, a time is an instant in microseconds.
pub mod Reads
pub mod Capacity
pub mod Decision
pub mod Within
pub mod Sizing
pub mod Bounds
pub mod Counted
pub mod Funded
pub mod Held
mod Tests
use wheelta_robinhood_agent.Common.{ℕ, Bool, true, false, Option, none, some, List, ℤ}
use wheelta_robinhood_agent.Enums.{OptionRight}
use wheelta_robinhood_agent.OrderWalk.{OrderSide}

pub data DataQuality : Type 0 where
  ok_quality stale missing contradictory low_confidence : DataQuality

pub record OptionInstrument : Type 0 where
  pub right : OptionRight
  pub strike : ℕ
  pub broker_instrument_id : ℕ
  pub underlying : ℕ
  pub multiplier : Option ℕ

pub record OptionQuote : Type 0 where
  pub as_of : ℕ
  pub bid : ℕ
  pub ask : ℕ

pub record UnderlyingQuote : Type 0 where
  pub as_of : ℕ
  pub price : ℕ

pub record ShareHolding : Type 0 where
  pub symbol : ℕ
  pub quantity : ℕ

pub record ShortOptionHolding : Type 0 where
  pub underlying : ℕ
  pub right : OptionRight
  pub strike : ℕ
  pub broker_instrument_id : ℕ
  pub short_quantity : ℕ
  pub multiplier : Option ℕ

-- `complete` is the property: the read covers shares and options.
pub record PositionsRead : Type 0 where
  pub as_of : ℕ
  pub complete : Bool
  pub share_holdings : List ShareHolding
  pub short_options : List ShortOptionHolding

pub record WorkingOrder : Type 0 where
  pub underlying : ℕ
  pub right : OptionRight
  pub strike : ℕ
  pub broker_instrument_id : ℕ
  pub side : OrderSide
  pub unfilled_quantity : ℕ
  pub multiplier : Option ℕ

pub record OpenOrdersRead : Type 0 where
  pub as_of : ℕ
  pub orders : List WorkingOrder

-- `AccountSnapshot` of domain/account.py
pub record Snapshot : Type 0 where
  pub as_of : ℕ
  pub agentic_verified : Bool
  pub quality : DataQuality
  pub account_value_usd : Option ℤ
  pub available_settled_cash_usd : Option ℕ
  pub cash_usd : Option ℕ
  pub csp_reserved_cash_usd : Option ℕ

pub record CashBaseline : Type 0 where
  pub account : Snapshot
  pub positions : PositionsRead
  pub open_orders : OpenOrdersRead
  pub unsettled_usd : Option ℕ

-- `SourcedValue`, where it is usable.
pub record DebitFunding : Type 0 where
  pub usable : Bool
  pub value : Option ℤ
  pub as_of : Option ℕ

pub data FactsPurpose : Type 0 where
  to_open : FactsPurpose
  -- The short quantity of the contract in the position.
  to_close to_manage : ℕ → FactsPurpose

pub record FactInputs : Type 0 where
  pub purpose : FactsPurpose
  pub instrument : OptionInstrument
  pub option_quote : Option OptionQuote
  pub underlying_quote : Option UnderlyingQuote
  pub account : Option Snapshot
  pub positions : Option PositionsRead
  pub open_orders : Option OpenOrdersRead
  pub cash_baseline : Option CashBaseline
  pub debit_funding : Option DebitFunding
  pub limit_price : Option ℕ
  pub close_quantity : Option ℕ
  pub established_target_quantity : Option ℕ
  pub confirmed_fills : List ℕ
