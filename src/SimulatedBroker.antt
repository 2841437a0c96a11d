-- ===== src/SimulatedBroker.antt =====
-- agent/simulated_broker.py: the broker of a dry run, which fills every order at once and lays its own orders
-- and fills over what Robinhood reports. Texts that are only compared are numbers, the arguments and
-- rows come decoded, and an argument that does not decode is absent. Refusals are kept by their kind.
pub mod Reads
pub mod Calls
pub mod Orders
pub mod Books
pub mod Views
pub mod Repeats
pub mod Cancels
pub mod Listing
mod Tests
use wheelta_robinhood_agent.Common.{
  ℕ, ◌+◌, ◌*◌, Bool, true, false, not, ◌&&◌, ◌||◌, Option, none, some, List, [], ◌∷◌, ltb, ◌==◌,
  if◌then◌else◌, is_some, ℤ, pos, negsuc, ltb_ℤ, ◌+ℤ◌, of_diff, Dict, find, assign, has_key, get_or,
}

pub data Side : Type 0 where
  buy sell : Side

pub data Effect : Type 0 where
  to_open to_close : Effect

-- The states of an order that the code names; `other_state` is any other text.
pub data OrderState : Type 0 where
  unconfirmed queued confirmed partially_filled filled cancelled other_state : OrderState

-- `_WORKING`
unfoldable pub is_working : OrderState → Bool
is_working unconfirmed = true
is_working queued = true
is_working confirmed = true
is_working partially_filled = true
is_working _ = false

abbrev pub same_state : OrderState → OrderState → Bool
same_state unconfirmed unconfirmed = true
same_state queued queued = true
same_state confirmed confirmed = true
same_state partially_filled partially_filled = true
same_state filled filled = true
same_state cancelled cancelled = true
same_state other_state other_state = true
same_state _ _ = false

pub data Refusal : Type 0 where
  account_required single_leg_only leg_incomplete ratio_not_one limit_only : Refusal
  bad_quantity_or_price instrument_unread no_multiplier not_simulated no_short_position : Refusal
  order_id_required not_open no_open_order not_available : Refusal

pub data Answer (A : Type 0) : Type 0 where
  answered : A → Answer A
  refused : Refusal → Answer A

-- What is read of an `OptionInstrument`.
pub record Instrument : Type 0 where
  pub root : ℕ
  pub multiplier : Option ℕ

pub record LegArguments : Type 0 where
  pub option_id : Option ℕ
  pub side : Option Side
  pub position_effect : Option Effect
  pub ratio_is_one : Bool

-- The arguments of a review or a placement; a leg that is no object is none.
pub record OrderArguments : Type 0 where
  pub account_number : Option ℕ
  pub legs : List (Option LegArguments)
  pub is_limit : Bool
  pub quantity : Option ℕ
  pub price : Option ℕ
  pub ref_id : Option ℕ

-- `_Leg` and `_Request`
pub record Leg : Type 0 where
  pub option_id : ℕ
  pub side : Side
  pub position_effect : Effect

pub record Request : Type 0 where
  pub account_number : ℕ
  pub leg : Leg
  pub quantity : ℕ
  pub price : ℕ
  pub instrument : Instrument
  pub multiplier : ℕ

-- `_count` and `_price`, of a decoded number.
abbrev pub positive : Option ℕ → Option ℕ
positive none = none
positive (some n) = if n == 0 then none else some n

-- The checks of `_request`, each on what the one before it found.
abbrev with_multiplier : ℕ → Leg → ℕ → ℕ → Instrument → Option ℕ → Answer Request
with_multiplier account leg quantity price instrument none = refused no_multiplier
with_multiplier account leg quantity price instrument (some multiplier) = answered (record {
  account_number = account;
  leg = leg;
  quantity = quantity;
  price = price;
  instrument = instrument;
  multiplier = multiplier;
})

abbrev with_instrument : ℕ → Leg → ℕ → ℕ → Option Instrument → Answer Request
with_instrument account leg quantity price none = refused instrument_unread
with_instrument account leg quantity price (some instrument) =
    with_multiplier account leg quantity price instrument instrument.multiplier

abbrev with_amounts : (ℕ → Option Instrument) → ℕ → Leg → Option ℕ → Option ℕ → Answer Request
with_amounts instruments account leg (some quantity) (some price) =
    with_instrument account leg quantity price (instruments leg.option_id)
with_amounts instruments account leg _ _ = refused bad_quantity_or_price

abbrev leg_of : Option ℕ → Option Side → Option Effect → Option Leg
leg_of (some option_id) (some side) (some effect) =
    some (record { option_id = option_id; side = side; position_effect = effect })
leg_of _ _ _ = none

abbrev with_leg :
    (ℕ → Option Instrument) → OrderArguments → ℕ → LegArguments → Option Leg → Answer Request
with_leg instruments a account raw none = refused leg_incomplete
with_leg instruments a account raw (some leg) =
    if not raw.ratio_is_one
    then refused ratio_not_one
    else if not a.is_limit
    then refused limit_only
    else with_amounts instruments account leg (positive a.quantity) (positive a.price)

abbrev with_legs :
    (ℕ → Option Instrument) → OrderArguments → ℕ → List (Option LegArguments) → Answer Request
with_legs instruments a account (some raw ∷ []) =
    with_leg instruments a account raw (leg_of raw.option_id raw.side raw.position_effect)
with_legs instruments a account _ = refused single_leg_only

abbrev with_account : (ℕ → Option Instrument) → OrderArguments → Option ℕ → Answer Request
with_account instruments a none = refused account_required
with_account instruments a (some account) = with_legs instruments a account a.legs

-- `_request`
unfoldable pub request_of : (ℕ → Option Instrument) → OrderArguments → Answer Request
request_of instruments a = with_account instruments a a.account_number

-- An order in the broker's shape, less what is copied from the contract.
pub record Order : Type 0 where
  pub id : ℕ
  pub leg : Leg
  pub state : OrderState
  pub quantity : ℕ
  pub processed_quantity : ℕ
  pub pending_quantity : ℕ
  pub canceled_quantity : ℕ
  pub price : ℕ
  pub processed_premium : ℕ
  pub placed_agent : ℕ
  pub created_at : ℕ
  pub updated_at : ℕ

-- `SimulatedState`; the sets are dictionaries of units.
pub record State : Type 0 where
  pub orders : Dict Order
  pub ref_ids : Dict ℕ
  pub real_working : Dict (Unit {0})
  pub real_cancelled : Dict ℕ
  pub short_delta : Dict ℤ
  pub filled_instruments : Dict Instrument
  pub real_short : Dict ℕ

abbrev pub start : State
start = record {
  orders = [];
  ref_ids = [];
  real_working = [];
  real_cancelled = [];
  short_delta = [];
  filled_instruments = [];
  real_short = [];
}

abbrev pub opens : Side → Effect → Bool
opens sell to_open = true
opens _ _ = false

abbrev pub closes : Side → Effect → Bool
closes buy to_close = true
closes _ _ = false

abbrev pub is_opening : Leg → Bool
is_opening leg = opens leg.side leg.position_effect

abbrev pub is_closing : Leg → Bool
is_closing leg = closes leg.side leg.position_effect

-- `_short_held`
unfoldable pub short_held : State → ℕ → ℤ
short_held s option_id =
    pos (get_or 0 (find s.real_short option_id)) +ℤ get_or (pos 0) (find s.short_delta option_id)

-- The text "agentic" of `placed_agent`.
abbrev pub agentic : ℕ
agentic = 1

abbrev pub filled_order : Request → ℕ → ℕ → Order
filled_order r order_id now = record {
  id = order_id;
  leg = r.leg;
  state = filled;
  quantity = r.quantity;
  processed_quantity = r.quantity;
  pending_quantity = 0;
  canceled_quantity = 0;
  price = r.price;
  processed_premium = r.price * r.quantity * r.multiplier;
  placed_agent = agentic;
  created_at = now;
  updated_at = now;
}

abbrev pub change_of : Request → ℤ
change_of r = if is_opening r.leg then of_diff r.quantity 0 else of_diff 0 r.quantity

abbrev pub add_ref : Option ℕ → ℕ → Dict ℕ → Dict ℕ
add_ref none order_id refs = refs
add_ref (some ref_id) order_id refs = assign refs ref_id order_id

-- The writes of `_place`.
abbrev pub filled_state : State → Request → Option ℕ → ℕ → ℕ → State
filled_state s r ref_id order_id now =
    let option_id = r.leg.option_id in
    record s {
      orders = assign s.orders order_id (filled_order r order_id now);
      ref_ids = add_ref ref_id order_id s.ref_ids;
      short_delta =
          assign s.short_delta option_id
            (get_or (pos 0) (find s.short_delta option_id) +ℤ change_of r);
      filled_instruments = assign s.filled_instruments option_id r.instrument;
    }

-- An answer with the state after it.
pub record Reply (A : Type 0) : Type 0 where
  pub answer : Answer A
  pub after : State

-- `self.state.orders[self.state.ref_ids[ref_id]]`: every reference that is kept names an order that is kept.
abbrev pub referenced : State → Option ℕ → Option Order
referenced s none = none
referenced s (some order_id) = find s.orders order_id

abbrev pub prior_order : State → Option ℕ → Option Order
prior_order s none = none
prior_order s (some ref_id) = referenced s (find s.ref_ids ref_id)

-- `_place` from a valid request that is not repeated.
unfoldable pub fill : State → Request → Option ℕ → ℕ → ℕ → Reply Order
unfolding short_held
fill s r ref_id order_id now =
    if not (is_opening r.leg || is_closing r.leg)
    then record { answer = refused not_simulated; after = s }
    else if is_closing r.leg && ltb_ℤ (short_held s r.leg.option_id) (pos r.quantity)
    then record { answer = refused no_short_position; after = s }
    else record {
      answer = answered (filled_order r order_id now);
      after = filled_state s r ref_id order_id now;
    }

abbrev pub place_request : State → Option ℕ → ℕ → ℕ → Answer Request → Option Order → Reply Order
place_request s ref_id order_id now (refused why) prior = record { answer = refused why; after = s }
place_request s ref_id order_id now (answered r) (some order) = record {
  answer = answered order;
  after = s;
}
place_request s ref_id order_id now (answered r) none = fill s r ref_id order_id now

module _ (instruments : ℕ → Option Instrument) where
  -- `_review` echoes the request.
  unfoldable pub review : OrderArguments → Answer Request
  unfolding request_of
  review a = request_of instruments a

  -- `_place`, with the id that the factory gives and the time.
  unfoldable pub place : State → OrderArguments → ℕ → ℕ → Reply Order
  unfolding request_of fill
  place s a order_id now =
      place_request s a.ref_id order_id now (request_of instruments a) (prior_order s a.ref_id)

pub record CancelArguments : Type 0 where
  pub account_number : Option ℕ
  pub order_id : Option ℕ

abbrev pub cancelled_order : Order → ℕ → Order
cancelled_order o now = record o {
  state = cancelled;
  pending_quantity = 0;
  canceled_quantity = o.pending_quantity;
  updated_at = now;
}

abbrev pub cancel_found : State → ℕ → ℕ → Option Order → Reply (Unit {0})
cancel_found s order_id now (some order) =
    if not (is_working order.state)
    then record { answer = refused not_open; after = s }
    else record {
      answer = answered tt;
      after = record s { orders = assign s.orders order_id (cancelled_order order now) };
    }
cancel_found s order_id now none =
    if has_key s.real_working order_id && not (has_key s.real_cancelled order_id)
    then record {
      answer = answered tt;
      after = record s { real_cancelled = assign s.real_cancelled order_id now };
    }
    else record { answer = refused no_open_order; after = s }

abbrev pub cancel_order : State → ℕ → Option ℕ → Reply (Unit {0})
cancel_order s now none = record { answer = refused order_id_required; after = s }
cancel_order s now (some order_id) = cancel_found s order_id now (find s.orders order_id)

-- `_cancel`
unfoldable pub cancel : State → CancelArguments → ℕ → Reply (Unit {0})
unfolding is_working
cancel s a now =
    if not (is_some a.account_number)
    then record { answer = refused account_required; after = s }
    else cancel_order s now a.order_id
