-- ===== src/Facts/Tests.antt =====
-- Sizing a put, a call and a close in an account of ten thousand dollars, money in cents.
use wheelta_robinhood_agent.Common.{
  ℕ, ◌+◌, ◌≤◌, ◌≡◌, inl, refl, true, none, some, [], ◌∷◌, pos, ok, arith,
}
use wheelta_robinhood_agent.Enums.{call, put}
use wheelta_robinhood_agent.FactsRules.{
  FactsRules, no_limit, count, money_marker, amount, ratio, ratio_marker,
}
use wheelta_robinhood_agent.Facts.{
  FactInputs, to_open, to_close, ok_quality, OptionInstrument, Snapshot, PositionsRead,
}
use wheelta_robinhood_agent.Facts.Reads.{is_recent, account, positions, orders, cover}
use wheelta_robinhood_agent.Facts.Capacity.{smallest, order_cap, coverage_cap}
use wheelta_robinhood_agent.Facts.Decision.{
  Quantities, covering, cc_capacity, close_capacity, funding_cap, compute_decision_facts,
}
use wheelta_robinhood_agent.Facts.Bounds.{compute_decision_facts_total}
use wheelta_robinhood_agent.Facts.Held.{
  IsClosable, IsCoverable, cc_capacity-covered, closing-IsClosable,
}

abbrev limits : FactsRules
limits = record {
  max_contracts_per_order = count 5;
  max_collateral_per_underlying_usd = money_marker no_limit;
  max_collateral_per_underlying_ratio = ratio (record { digits = 50; places = 2 });
  max_total_csp_collateral_ratio = ratio (record { digits = 80; places = 2 });
  min_cash_reserve_usd = amount 100000;
  cc_max_lot_coverage_ratio = ratio_marker no_limit;
  option_quote_max_age_seconds = count 60;
  equity_quote_max_age_seconds = count 60;
  account_state_max_age_seconds = count 60;
}

abbrev snapshot : Snapshot
snapshot = record {
  as_of = 1000000;
  agentic_verified = true;
  quality = ok_quality;
  account_value_usd = some (pos 1000000);
  available_settled_cash_usd = some 1000000;
  cash_usd = some 1000000;
  csp_reserved_cash_usd = none;
}

abbrev holdings : PositionsRead
holdings = record {
  as_of = 1000000;
  complete = true;
  share_holdings = record { symbol = 1; quantity = 250 } ∷ [];
  short_options =
      record {
        underlying = 2;
        right = call;
        strike = 2000;
        broker_instrument_id = 8;
        short_quantity = 3;
        multiplier = some 100;
      }
      ∷ [];
}

abbrev put_on : OptionInstrument
put_on = record {
  right = put;
  strike = 1000;
  broker_instrument_id = 7;
  underlying = 1;
  multiplier = some 100;
}

abbrev open_puts : FactInputs
open_puts = record {
  purpose = to_open;
  instrument = put_on;
  option_quote = none;
  underlying_quote = none;
  account = some snapshot;
  positions = some holdings;
  open_orders = some (record { as_of = 1000000; orders = [] });
  cash_baseline = none;
  debit_funding = none;
  limit_price = none;
  close_quantity = none;
  established_target_quantity = none;
  confirmed_fills = [];
}

abbrev open_calls : FactInputs
open_calls = record open_puts { instrument = record put_on { right = call } }

abbrev close_two : FactInputs
close_two = record open_puts {
  purpose = to_close 3;
  instrument = record put_on { right = call; broker_instrument_id = 8; underlying = 2 };
  close_quantity = some 2;
}

compute_decision_facts_total_example :
    (q : Quantities) × (compute_decision_facts limits 2000000 open_puts ≡ ok q)
compute_decision_facts_total_example = compute_decision_facts_total limits 2000000 open_puts

cc_capacity-covered_example : IsCoverable limits 2000000 open_calls 100 2
unfolding cc_capacity positions orders covering is_recent cover order_cap coverage_cap smallest
cc_capacity-covered_example =
    cc_capacity-covered limits 2000000 open_calls 100 2 refl (omega arith) (omega arith)
      (λ ratio e.
        let one : record { digits = 1; places = 0 } ≡ ratio = cc in rw⁻¹ one (omega arith))
      refl

closing-IsClosable_example :
    IsClosable limits 2000000 close_two 3 2 × ((t : ℕ) × ((some 2 ≡ some t) × (2 + 0 ≤ t)))
unfolding compute_decision_facts close_capacity positions orders is_recent funding_cap
closing-IsClosable_example =
    closing-IsClosable limits 2000000 close_two 3 2
      (record { initial_quantity = some 2; remaining_quantity = some 2 }) (inl refl) refl refl
