-- ===== src/StartConditions/Tests.antt =====
-- Starts of the Sell Options agent with 250 shares of one symbol, of which a short row could reserve 100 or 200.
use wheelta_robinhood_agent.Common.{ℕ, ◌≡◌, refl, ◌↔◌, ◌⊎◌, some, List, [], ◌∷◌}
use wheelta_robinhood_agent.StartConditions.{met, not_met, ShortRow, Shares, evaluate_sell_start}
use wheelta_robinhood_agent.StartConditions.Met.{HasCash, HasLot, evaluate_sell_start-met}

abbrev held : List Shares
held = record { symbol = 3; quantity = 250 } ∷ []

abbrev rows_of : ℕ → List ShortRow
rows_of contracts = record { underlying = 3; short_quantity = contracts; multiplier = 100 } ∷ []

one_short : (evaluate_sell_start (some 10) 50 (some held) (some (rows_of 1))).outcome ≡ met
unfolding evaluate_sell_start
one_short = refl

two_short : (evaluate_sell_start (some 10) 50 (some held) (some (rows_of 2))).outcome ≡ not_met
unfolding evaluate_sell_start
two_short = refl

evaluate_sell_start-met_example :
    ((evaluate_sell_start (some 10) 50 (some held) (some (rows_of 1))).outcome ≡ met)
    ↔ (HasCash (some 10) 50 ⊎ HasLot (some held) (some (rows_of 1)))
evaluate_sell_start-met_example =
    evaluate_sell_start-met (some 10) 50 (some held) (some (rows_of 1))
