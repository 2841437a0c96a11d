-- ===== src/Executor/Types.antt =====
-- The data of agent/order_walk.py: the request, what the broker reports, and the job.
--
-- Identifiers (instrument, order and call IDs, ticker symbols) are only compared, so they are naturals.
-- A raw text that the code compares with one word is kept as the outcome of that comparison.
use wheelta_robinhood_agent.Common.{ℕ, Bool, true, false, Option, none, some, List, ℤ}
use wheelta_robinhood_agent.OrderWalk.{
  OrderSide, sell_to_open, buy_to_close, is_selling, WalkStatus,
}

abbrev pub Identifier : Type 0
Identifier = ℕ

-- domain/enums.py
pub data AttemptStatus : Type 0 where
  not_placed placed partially_filled filled cancelled rejected expired unknown : AttemptStatus

pub data ToolCallStatus : Type 0 where
  requested denied succeeded failed timed_out unknown : ToolCallStatus

-- config/rules.py: what a walk does after a partial fill.
pub data PartialFill : Type 0 where
  continue stop : PartialFill

-- `_TERMINAL_ORDER`
unfoldable pub is_terminal : AttemptStatus → Bool
is_terminal filled = true
is_terminal cancelled = true
is_terminal rejected = true
is_terminal expired = true
is_terminal _ = false

abbrev pub is_succeeded : ToolCallStatus → Bool
is_succeeded succeeded = true
is_succeeded _ = false

abbrev pub is_failed : ToolCallStatus → Bool
is_failed failed = true
is_failed _ = false

abbrev pub same_side : OrderSide → OrderSide → Bool
same_side sell_to_open sell_to_open = true
same_side buy_to_close buy_to_close = true
same_side _ _ = false

pub record WorkRequest : Type 0 where
  pub option_id : Identifier
  pub side : OrderSide
  pub quantity : ℕ
  pub start_price : ℕ
  pub worst_price : ℕ

abbrev pub opening : WorkRequest → Bool
opening r = is_selling r.side

-- `WorkRequest.order_input`: one leg, limit, day order; what varies is kept.
pub record OrderInput : Type 0 where
  pub option_id : Identifier
  pub side : OrderSide
  pub price : ℕ
  pub quantity : ℕ

unfoldable pub order_input : WorkRequest → ℕ → ℕ → OrderInput
order_input r price quantity = record {
  option_id = r.option_id;
  side = r.side;
  price = price;
  quantity = quantity;
}

-- A call of one of the `EXECUTOR_TOOLS`, with its input.
pub data Call : Type 0 where
  quotes equity_quotes orders cancel : Identifier → Call
  account : Call
  review place : OrderInput → Call

pub record Quote : Type 0 where
  pub broker_instrument_id : Identifier
  pub bid : ℕ
  pub ask : ℕ
  pub as_of : ℕ

-- `side_raw` as the side that the text names, if it names one.
pub record OrderLeg : Type 0 where
  pub broker_instrument_id : Identifier
  pub side_raw : Option OrderSide

pub record OrderReview : Type 0 where
  pub clean : Bool
  pub legs : List OrderLeg
  pub quantity : ℤ
  pub is_limit : Bool  -- order_type_raw.lower() == "limit"
  pub is_day : Bool  -- (time_in_force_raw or "gfd").lower() == "gfd"
  pub limit_price : Option ℕ

pub record BrokerOrder : Type 0 where
  pub broker_order_id : Identifier
  pub status : AttemptStatus
  pub quantity : ℤ
  pub processed_quantity : ℤ
  pub limit_price : Option ℕ
  pub legs : List OrderLeg

pub record CancelRequest : Type 0 where
  pub broker_order_id : Identifier
  pub accepted : Bool

-- `MappedEvidence`, the parts that the executor reads; of the underlying's quotes only whether any is
-- there.
pub record Evidence : Type 0 where
  pub option_quotes : List Quote
  pub has_underlying_quotes : Bool
  pub order_reviews : List OrderReview
  pub broker_orders : List BrokerOrder
  pub cancel_requests : List CancelRequest

pub record CallOutcome : Type 0 where
  pub status : ToolCallStatus
  pub evidence : Option Evidence

-- `Admitted | Refused`: the registration of the call and its record.
pub data Admission : Type 0 where
  admitted : Identifier → Identifier → Admission
  refused : Admission

-- What `_call` returns.
pub data Called : Type 0 where
  answered : Identifier → CallOutcome → Called
  refused : Called

pub record WalkStep : Type 0 where
  pub index : ℕ
  pub price : ℕ
  pub quantity : ℕ
  pub place_tool_call_id : Option Identifier
  pub broker_order_id : Option Identifier
  pub order_status : Option AttemptStatus
  pub filled_quantity : ℕ
  pub cancel_tool_call_id : Option Identifier
  pub cancel_sent : Bool

-- Why a job ended: a constructor for each message of the source, without the values quoted in it.
pub data Reason : Type 0 where
  window_over run_stop_requested placement_has_ended quote_denied no_quote stale_quote : Reason
  underlying_unknown no_underlying_quote quote_moved review_denied review_unusable : Reason
  review_alert review_legs review_quantity review_type review_time_in_force review_price : Reason
  placement_denied placement_not_sent placement_unknown placed_leg placed_quantity : Reason
  placed_price broker_rejected partial_fill_stop no_broker_id cancel_already_sent : Reason
  cancel_refused cancel_not_accepted cancel_not_confirmed cancel_unknown : Reason
  inconsistent_fill executor_failure executor_cancelled : Reason

-- `steps` stands newest first, the source's list reversed: its last step is the head.
pub record WalkJob : Type 0 where
  pub job_id : Identifier
  pub request : WorkRequest
  pub prices : List ℕ
  pub accepted_at : ℕ
  pub window_end : ℕ
  pub status : WalkStatus
  pub reason : Option Reason
  pub steps : List WalkStep
  pub filled_quantity : ℕ
  pub ended_at : Option ℕ
  pub done : Bool

abbrev pub is_terminal_status : Option AttemptStatus → Bool
is_terminal_status none = false
is_terminal_status (some status) = is_terminal status
