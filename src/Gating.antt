-- ===== src/Gating.antt =====
-- domain/gating.py: the execution mode a run uses, and where its order tools go.
pub mod Armed
use wheelta_robinhood_agent.Common.{Bool, true, false, not, ◌&&◌, Result, raise_if, value_error}

pub data ExecutionMode : Type 0 where
  off live : ExecutionMode

pub data OrderVenue : Type 0 where
  broker simulated no_venue : OrderVenue

abbrev pub is_live : ExecutionMode → Bool
is_live live = true
is_live off = false

unfoldable pub effective_execution_mode : ExecutionMode → Bool → ExecutionMode → ExecutionMode
effective_execution_mode requested armed ceiling =
    elim (is_live requested && armed && is_live ceiling) [ true ↦ live | false ↦ off ]

unfoldable pub order_venue : ExecutionMode → Bool → OrderVenue
order_venue live robinhood_proxied = broker
order_venue off true = simulated
order_venue off false = no_venue

unfoldable pub executes_orders : OrderVenue → Bool
executes_orders no_venue = false
executes_orders _ = true

abbrev is_broker : OrderVenue → Bool
is_broker broker = true
is_broker _ = false

-- `a != b` of two Booleans.
abbrev differ : Bool → Bool → Bool
differ true b = not b
differ false b = b

unfoldable pub check_venue : ExecutionMode → OrderVenue → Result (Unit {0})
check_venue effective venue = raise_if (differ (is_broker venue) (is_live effective)) value_error

unfoldable pub prompt_execution_mode : OrderVenue → ExecutionMode
unfolding executes_orders
prompt_execution_mode venue = elim (executes_orders venue) [ true ↦ live | false ↦ off ]
