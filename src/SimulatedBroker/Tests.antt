-- ===== src/SimulatedBroker/Tests.antt =====
-- Runs of the simulated broker (agent/simulated_broker.py) on small inputs.
use wheelta_robinhood_agent.Common.{
  ℕ, ◌≡◌, ◌≢◌, refl, true, false, Option, none, some, [], ◌∷◌, pos, ltb_ℤ,
}
use wheelta_robinhood_agent.Texts.{codes}
use wheelta_robinhood_agent.SimulatedBroker.{
  State, start, is_working, Instrument, buy, sell, to_open, to_close, OrderArguments,
  CancelArguments, answered, Request, request_of, place, cancel, short_held, filled_order, fill,
  confirmed,
}
use wheelta_robinhood_agent.SimulatedBroker.Reads.{
  by_order_id, by_account, RealOrder, RealPosition, read, observe_real, overlay_orders,
  show_position,
}
use wheelta_robinhood_agent.SimulatedBroker.Calls.{
  ToolCall, Tier, tier_read, place_call, other_call, orders_call, positions_call, order_list,
  raised, call_tool, Reaches, here, called,
}
use wheelta_robinhood_agent.SimulatedBroker.Orders.{IsBooked, start-IsBooked}
use wheelta_robinhood_agent.SimulatedBroker.Views.{reached-IsBooked, position_shown, place_bounds}
use wheelta_robinhood_agent.SimulatedBroker.Listing.{Lists, an_account, the_order, place-Lists}
use wheelta_robinhood_agent.SimulatedBroker.Repeats.{repeated_place}
use wheelta_robinhood_agent.SimulatedBroker.Cancels.{cancelled_hides}

abbrev tiers : ToolCall → Option Tier
tiers (orders_call filters) = some tier_read
tiers (positions_call first_page) = some tier_read
tiers (place_call a) = some tier_read
tiers _ = none

abbrev test_contracts : ℕ → Option Instrument
test_contracts option_id = some (record { root = 1; multiplier = some 100 })

abbrev two_puts : OrderArguments
two_puts = record {
  account_number = some 9;
  legs =
      some (record {
        option_id = some 7;
        side = some sell;
        position_effect = some to_open;
        ratio_is_one = true;
      })
      ∷ [];
  is_limit = true;
  quantity = some 2;
  price = some 150;
  ref_id = some 5;
}

abbrev back_one : OrderArguments
back_one = record two_puts {
  legs =
      some (record {
        option_id = some 7;
        side = some buy;
        position_effect = some to_close;
        ratio_is_one = true;
      })
      ∷ [];
  quantity = some 1;
  ref_id = none;
}

abbrev sold : State
sold = (call_tool tiers test_contracts start (place_call two_puts) 11 100 raised).after

sold_calls : Reaches tiers test_contracts start sold
sold_calls = called start here (place_call two_puts) 11 100 raised refl

reached-IsBooked_example : IsBooked sold
reached-IsBooked_example = reached-IsBooked tiers test_contracts sold sold_calls

abbrev three_short : RealPosition
three_short = record { option_id = 7; is_short = true; quantity = some 3 }

position_shown_example : (show_position sold three_short).entry.quantity ≡ some 5
unfolding call_tool place fill request_of
position_shown_example = position_shown sold reached-IsBooked_example three_short 2 refl refl

place_bounds_example :
    ltb_ℤ (short_held (place test_contracts sold back_one 12 101).after 7) (pos 0) ≡ false
unfolding short_held call_tool place fill request_of
place_bounds_example = place_bounds 7 test_contracts sold back_one 12 101 refl refl

abbrev sold_request : Request
sold_request = record {
  account_number = 9;
  leg = record { option_id = 7; side = sell; position_effect = to_open };
  quantity = 2;
  price = 150;
  instrument = record { root = 1; multiplier = some 100 };
  multiplier = 100;
}

abbrev placed_state : State
placed_state = (place test_contracts start two_puts 11 100).after

repeated_place_example :
    place test_contracts placed_state two_puts 12 101
    ≡ record { answer = answered (filled_order sold_request 11 100); after = placed_state }
unfolding place fill request_of
repeated_place_example =
    repeated_place tiers test_contracts start placed_state two_puts two_puts 5 11 100 12 101
      (filled_order sold_request 11 100) sold_request start-IsBooked refl refl refl here refl refl

abbrev real_order : RealOrder
real_order = record {
  id = 21;
  state = confirmed;
  pending_quantity = some 1;
  canceled_quantity = some 0;
  updated_at = some 90;
}

abbrev listed : State
listed =
    (call_tool tiers test_contracts start (orders_call []) 11 100
      (order_list (some (read real_order ∷ [])))).after

abbrev cancel_it : CancelArguments
cancel_it = record { account_number = some 9; order_id = some 21 }

listed-IsBooked : IsBooked listed
listed-IsBooked =
    reached-IsBooked tiers test_contracts listed
      (called start here (orders_call []) 11 100 (order_list (some (read real_order ∷ []))) refl)

cancelled_hides_example :
    ((order : RealOrder)
      → order.id ≡ 21
      → is_working (observe_real (cancel listed cancel_it 101).after order).entry.state ≡ false)
    × ((again : CancelArguments) (later : ℕ)
        → again.order_id ≡ some 21
        → (cancel (cancel listed cancel_it 101).after again later).answer ≢ answered tt)
unfolding call_tool overlay_orders observe_real is_working cancel
cancelled_hides_example =
    cancelled_hides tiers test_contracts listed (cancel listed cancel_it 101).after cancel_it 21 101
      listed-IsBooked refl refl here

place-Lists_example : Lists (filled_order sold_request 11 100) (
    overlay_orders
      (place test_contracts start two_puts 11 100).after
      (by_account 4 ∷ by_order_id 11 ∷ [])
      none)
unfolding place fill request_of
place-Lists_example =
    place-Lists test_contracts start two_puts 11 100 (filled_order sold_request 11 100)
      (by_account 4 ∷ by_order_id 11 ∷ []) none start-IsBooked refl (an_account 4, (the_order, tt))

abbrev an_exercise : ToolCall
an_exercise = other_call (codes "exercise_option")

-- Whatever the registry says of it.
exercise_stays :
    (call_tool (λ call. some tier_read) test_contracts sold an_exercise 12 100 raised).sent ≡ []
unfolding call_tool
exercise_stays = refl

placement_stays :
    (call_tool
      (λ call. some tier_read)
      test_contracts
      sold
      (place_call two_puts)
      12
      100
      raised).sent
    ≡ []
unfolding call_tool place fill request_of
placement_stays = refl

cancels_listed_read :
    (call_tool
      (λ call. some tier_read)
      test_contracts
      sold
      (other_call (codes "list_cancel_"))
      12
      100
      raised).sent
    ≡ other_call (codes "list_cancel_") ∷ []
unfolding call_tool
cancels_listed_read = refl
