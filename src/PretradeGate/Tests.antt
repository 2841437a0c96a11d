-- ===== src/PretradeGate/Tests.antt =====
-- A put to sell while another order is closing.
use wheelta_robinhood_agent.Common.{◌≡◌, ◌↔◌, refl, true, none, some, [], ◌∷◌, All, ok}
use wheelta_robinhood_agent.Texts.{codes}
use wheelta_robinhood_agent.FactsRules.{count}
use wheelta_robinhood_agent.Facts.Reads.{is_recent}
use wheelta_robinhood_agent.RoleGate.{sell, check_role}
use wheelta_robinhood_agent.Concurrency.{check_concurrency, not_all_closing}
use wheelta_robinhood_agent.Pretrade.{
  validate_opening_leg, pretrade_feedback, compare_bounds, cushion_ratio, annualized_ratio,
}
use wheelta_robinhood_agent.PretradeGate.{
  PlacedOrder, sell_text, open_text, working_of, run_fills, concurrency_denied, gate,
}
use wheelta_robinhood_agent.PretradeGate.Passes.{StateAllows, OpensEligible, gate-passes}
use wheelta_robinhood_agent.PretradeGate.Reading.{HasLegs, sells_to_open, no_more}
use wheelta_robinhood_agent.PretradeGate.Permission.{RoleAllows}
use wheelta_robinhood_agent.PretradeGate.Samples.{rules, today, evidence, sell_one, one_leg, itself}

lets_through :
    gate today rules (count 60) evidence 2000000 sell sell_one [] (some itself) none true ≡ ok none
unfolding gate check_role validate_opening_leg pretrade_feedback compare_bounds is_recent
    cushion_ratio annualized_ratio
lets_through = refl

abbrev closing_order : PlacedOrder
closing_order = record {
  label = 3;
  intent = some (record {
    broker_instrument_id = some 8;
    side_raw = some (codes "BUY_to_Close");
    occ_symbol = none;
    quantity = some 2;
    limit_price = some 20;
  });
  filled_quantity = some 1;
}

holds_back :
    gate today rules
      (count 60)
      evidence
      2000000
      sell
      sell_one
      []
      (some (record itself { unresolved = closing_order ∷ [] }))
      none
      true
    ≡ ok (some (concurrency_denied (not_all_closing (3 ∷ []))))
unfolding gate check_role check_concurrency
holds_back = refl

reads_one : HasLegs sell_one.legs one_leg
reads_one = record {
  first =
      some (record { side = some sell_text; position_effect = some open_text; option_id = some 7 });
  others = [];
  given = refl;
  are_read = sells_to_open 7 [] [] [] no_more;
}

gate-passes_example :
    (gate today rules (count 60) evidence 2000000 sell sell_one [] (some itself) none true
      ≡ ok none)
    ↔ (RoleAllows today rules (count 60) evidence 2000000 sell one_leg (some 1) []
        × (StateAllows today rules
              (count 60)
              evidence
              2000000
              sell_one
              one_leg
              none
              true
              (some itself)
            × All (OpensEligible today rules (count 60) evidence 2000000) (7 ∷ [])))
gate-passes_example =
    gate-passes today rules (count 60) evidence 2000000 sell sell_one [] (some itself) none true
      one_leg reads_one

-- The property `side` compares the text as it is, so such a close is not among the run's fills.
abbrev other_case : PlacedOrder
other_case = record {
  label = 4;
  intent = some (record {
    broker_instrument_id = some 7;
    side_raw = some (codes "Buy_to_close");
    occ_symbol = none;
    quantity = some 1;
    limit_price = some 20;
  });
  filled_quantity = some 1;
}

no_fill : run_fills today rules (count 60) evidence 2000000 (other_case ∷ []) ≡ []
no_fill = refl

is_closing : (working_of other_case).closing ≡ true
is_closing = refl
