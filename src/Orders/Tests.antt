-- ===== src/Orders/Tests.antt =====
-- Two executions and a total of one order.
use wheelta_robinhood_agent.Common.{ℕ, ◌≤◌, ◌≡◌, refl, none, some, List, [], ◌∷◌, ◌++◌, All, ok}
use wheelta_robinhood_agent.Orders.{FillRecord, execution, cumulative, filled_quantity, check_fill}
use wheelta_robinhood_agent.Orders.Totals.{filled_quantity-bounds}
use wheelta_robinhood_agent.Orders.Repeats.{filled_quantity-reobserved}

abbrev executed : ℕ → ℕ → FillRecord
executed id quantity = record {
  order_id = 1;
  kind = execution;
  broker_execution_id = some id;
  quantity = quantity;
  observed_at = id;
}

abbrev total : ℕ → ℕ → FillRecord
total quantity observed_at = record {
  order_id = 1;
  kind = cumulative;
  broker_execution_id = none;
  quantity = quantity;
  observed_at = observed_at;
}

abbrev three : List FillRecord
three = executed 5 2 ∷ total 3 9 ∷ total 1 4 ∷ executed 6 1 ∷ []

three_filled : filled_quantity three ≡ some 3
unfolding filled_quantity
three_filled = refl

falls : filled_quantity (total 3 4 ∷ total 1 9 ∷ []) ≡ none
unfolding filled_quantity
falls = refl

no_id : check_fill (total 3 4) ≡ ok tt
unfolding check_fill
no_id = refl

filled_quantity-bounds_example : All (λ f. f.quantity ≤ 3) three
filled_quantity-bounds_example = filled_quantity-bounds three 3 three_filled

filled_quantity-reobserved_example : filled_quantity (three ++ (executed 6 1 ∷ [])) ≡ some 3
filled_quantity-reobserved_example =
    filled_quantity-reobserved (executed 5 2 ∷ total 3 9 ∷ total 1 4 ∷ []) [] (executed 6 1) 6 3
      refl refl three_filled
