-- ===== src/SimulatedBroker/Calls.antt =====
-- `call_tool` of agent/simulated_broker.py, and the calls that a run makes one after another.
use wheelta_robinhood_agent.Common.{
  ℕ, ◌≡◌, Bool, true, false, not, ◌&&◌, ◌||◌, Option, some, List, [], ◌∷◌, if◌then◌else◌, has_key,
}
use wheelta_robinhood_agent.Texts.{Text, codes, begins_with}
use wheelta_robinhood_agent.SimulatedBroker.{
  OrderArguments, CancelArguments, Refusal, not_available, answered, refused, Request, Order,
  Instrument, State, Reply, review, place, cancel,
}
use wheelta_robinhood_agent.SimulatedBroker.Reads.{
  Filter, Listed, RealOrder, RealPosition, OrderRow, PositionRow, Page, overlay_orders,
  overlay_positions,
}

-- A call by its tool; of any other tool, its name.
pub data ToolCall : Type 0 where
  review_call place_call : OrderArguments → ToolCall
  cancel_call : CancelArguments → ToolCall
  orders_call : List Filter → ToolCall
  positions_call : Bool → ToolCall
  other_call : Text → ToolCall

abbrev tool_name : ToolCall → Text
tool_name (review_call a) = codes "review_option_order"
tool_name (place_call a) = codes "place_option_order"
tool_name (cancel_call a) = codes "cancel_option_order"
tool_name (orders_call filters) = codes "get_option_orders"
tool_name (positions_call first_page) = codes "get_option_positions"
tool_name (other_call name) = name

-- `_ORDER_ACTION`
abbrev pub is_order_action : Text → Bool
is_order_action name =
    begins_with (codes "review_") name
    || begins_with (codes "place_") name
    || begins_with (codes "replace_") name
    || begins_with (codes "cancel_") name
    || begins_with (codes "exercise_") name

pub data Tier : Type 0 where
  tier_read tier_workspace tier_order : Tier

-- What Robinhood answers; a list without its `data` object is an `opaque` answer.
pub data UpstreamAnswer : Type 0 where
  order_list : Option (List (Listed RealOrder)) → UpstreamAnswer
  position_list : Option (List (Listed RealPosition)) → UpstreamAnswer
  opaque : ℕ → UpstreamAnswer
  raised : UpstreamAnswer

pub data Result : Type 0 where
  reviewed : Request → Result
  placed : Order → Result
  accepted : Result
  orders_listed : Option (List OrderRow) → Result
  positions_listed : Option (List PositionRow) → Result
  passed_on : UpstreamAnswer → Result
  unavailable : Refusal → Result

-- A call's result, the state after it, and the calls that reached Robinhood.
pub record Done : Type 0 where
  pub result : Result
  pub after : State
  pub sent : List ToolCall

abbrev local_result : {A : Type 0} → (A → Result) → Reply A → Done
local_result shape reply = record {
  result = elim reply.answer [ answered value ↦ shape value | refused why ↦ unavailable why ];
  after = reply.after;
  sent = [];
}

abbrev in_tiers : Option Tier → Bool
in_tiers (some tier_read) = true
in_tiers (some tier_workspace) = true
in_tiers _ = false

-- The overlay of a forwarded call's answer.
abbrev orders_done : ToolCall → Page OrderRow → Done
orders_done call page = record {
  result = orders_listed page.rows;
  after = page.after;
  sent = call ∷ [];
}

abbrev positions_done : ToolCall → Page PositionRow → Done
positions_done call page = record {
  result = positions_listed page.rows;
  after = page.after;
  sent = call ∷ [];
}

abbrev pub overlaid : State → ToolCall → UpstreamAnswer → Done
overlaid s (orders_call filters) (order_list listed) =
    orders_done (orders_call filters) (overlay_orders s filters listed)
overlaid s (positions_call first_page) (position_list listed) =
    positions_done (positions_call first_page) (overlay_positions s first_page listed)
overlaid s call answer = record { result = passed_on answer; after = s; sent = call ∷ [] }

module _ (tier_of : ToolCall → Option Tier) (instruments : ℕ → Option Instrument) where
  -- `_forwardable`
  abbrev pub is_forwardable : ToolCall → Bool
  is_forwardable call = in_tiers (tier_of call) && not (is_order_action (tool_name call))

  abbrev pub answered_here : State → ToolCall → ℕ → ℕ → Done
  answered_here s (review_call a) order_id now =
      local_result reviewed (record { answer = review instruments a; after = s })
  answered_here s (place_call a) order_id now =
      local_result placed (place instruments s a order_id now)
  answered_here s (cancel_call a) order_id now = local_result (λ done. accepted) (cancel s a now)
  answered_here s call order_id now = record {
    result = unavailable not_available;
    after = s;
    sent = [];
  }

  -- `call_tool`, with the ID that the factory gives next, the time and Robinhood's answer.
  unfoldable pub call_tool : State → ToolCall → ℕ → ℕ → UpstreamAnswer → Done
  unfolding overlay_orders overlay_positions review place cancel
  call_tool s call order_id now answer =
      if not (is_forwardable call)
      then answered_here s call order_id now
      else overlaid s call answer

  -- The states that calls lead to, one after another; the factory's IDs are unused ones.
  pub data Reaches (s : State) : State → Type 0 where
    here : Reaches s s
    called :
        (t : State)
        → Reaches s t
        → (call : ToolCall) (order_id now : ℕ) (answer : UpstreamAnswer)
        → has_key t.orders order_id ≡ false
        → Reaches s (call_tool t call order_id now answer).after
