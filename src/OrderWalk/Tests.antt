-- ===== src/OrderWalk/Tests.antt =====
-- Runs of the walk's schedule on an option with ticks of 0.05 from 3.00 and 0.01 below, in cents.
use wheelta_robinhood_agent.Common.{
  ℕ, ◌≡◌, refl, ◌↔◌, List, [], ◌∷◌, ok, err, value_error, true, arith,
}
use wheelta_robinhood_agent.OrderWalk.{
  sell_to_open, buy_to_close, Quotient, TickSchedule, is_valid, wrong_order, step_price,
  step_prices, round_to_tick,
}
use wheelta_robinhood_agent.OrderWalk.Rounding.{
  IsWellFormed, IsCeiling, IsFloor, round_to_tick-IsCeiling, round_to_tick-IsFloor,
}
use wheelta_robinhood_agent.OrderWalk.Total.{
  IsWalk, IsPlannable, step_prices-IsWalk, step_prices_total,
}

abbrev ticks : TickSchedule
ticks = record { above_tick = 5; below_tick = 1; cutoff_price = 300 }

ticks-IsWellFormed : IsWellFormed ticks
ticks-IsWellFormed = omega arith

sale : step_prices 310 293 5 sell_to_open ticks ≡ ok (310 ∷ 305 ∷ 298 ∷ 293 ∷ [])
unfolding step_prices is_valid wrong_order step_price round_to_tick
sale = refl

purchase : step_prices 293 310 4 buy_to_close ticks ≡ ok (293 ∷ 298 ∷ 300 ∷ 310 ∷ [])
unfolding step_prices is_valid wrong_order step_price round_to_tick
purchase = refl

off_tick : step_prices 311 293 5 sell_to_open ticks ≡ err value_error
unfolding step_prices is_valid
off_tick = refl

abbrev third : Quotient
third = record { num = 896; den = 3 }

round_to_tick-IsCeiling_example :
    (p : ℕ) × (round_to_tick third ticks sell_to_open ≡ ok p)
    × IsCeiling ticks ticks-IsWellFormed third (omega arith) p
round_to_tick-IsCeiling_example =
    round_to_tick-IsCeiling ticks ticks-IsWellFormed third (omega arith) (omega arith)

valid_290 : is_valid ticks 290 ≡ true
unfolding is_valid
valid_290 = refl

round_to_tick-IsFloor_example :
    (p : ℕ) × (round_to_tick third ticks buy_to_close ≡ ok p)
    × IsFloor ticks ticks-IsWellFormed third (omega arith) p
round_to_tick-IsFloor_example =
    round_to_tick-IsFloor ticks ticks-IsWellFormed third (omega arith) 290 valid_290 (omega arith)

step_prices-IsWalk_example : IsWalk 310 293 5 sell_to_open ticks (310 ∷ 305 ∷ 298 ∷ 293 ∷ [])
step_prices-IsWalk_example =
    step_prices-IsWalk 310 293 sell_to_open ticks 5 (310 ∷ 305 ∷ 298 ∷ 293 ∷ []) sale

step_prices_total_example :
    ((ps : List ℕ) × (step_prices 293 310 4 buy_to_close ticks ≡ ok ps))
    ↔ IsPlannable 293 310 4 buy_to_close ticks
step_prices_total_example = step_prices_total 293 310 buy_to_close ticks ticks-IsWellFormed 4
