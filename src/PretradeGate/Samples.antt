-- ===== src/PretradeGate/Samples.antt =====
-- A put to sell, money in cents: the run's evidence and rules, the tool's input, and its own placement.
use wheelta_robinhood_agent.Common.{ℕ, false, none, some, [], ◌∷◌}
use wheelta_robinhood_agent.Enums.{put}
use wheelta_robinhood_agent.FactsRules.{count, ratio}
use wheelta_robinhood_agent.Pretrade.{PretradeRules}
use wheelta_robinhood_agent.PretradeGate.{
  ToolInput, sell_text, open_text, PlacementState, RunEvidence, Instrument, ParsedLegs,
}

abbrev pub rules : PretradeRules
rules = record {
  min_dte = count 20;
  max_dte = count 45;
  min_abs_delta = ratio (record { digits = 15; places = 2 });
  max_abs_delta = ratio (record { digits = 30; places = 2 });
  min_cushion_ratio = ratio (record { digits = 5; places = 2 });
  min_annualized_yield_ratio = ratio (record { digits = 10; places = 2 });
  option_quote_max_age_seconds = count 60;
  equity_quote_max_age_seconds = count 60;
}

abbrev pub today : ℕ → ℕ
today t = 100

abbrev pub a_put : Instrument
a_put = record {
  contract = record { right = put; strike = 4500; expiration = 130 };
  occ_symbol = record { root = 1; right = put };
  underlying = 1;
  multiplier = some 100;
}

abbrev pub evidence : RunEvidence
evidence = record {
  instrument = λ id. some a_put;
  option_quote = λ id.
      some (record {
        as_of = 1000000;
        bid = 60;
        abs_delta = some (record { digits = 2; places = 1 });
      });
  underlying_quote = λ id. some (record { as_of = 1000000; price = 5000 });
  account = none;
}

abbrev pub sell_one : ToolInput
sell_one = record {
  legs = some (
      some (record { side = some sell_text; position_effect = some open_text; option_id = some 7 })
      ∷ []);
  quantity = some 1;
  price = some 55;
}

abbrev pub one_leg : ParsedLegs
one_leg = record { opening = 7 ∷ []; legs = record { option_id = 7; closing = false } ∷ [] }

abbrev pub itself : PlacementState
itself = record { unresolved = []; placements_in_flight = 1; active_jobs = [] }
