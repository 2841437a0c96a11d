-- ===== src/Executor/Tests.antt =====
-- Runs of a job of agent/order_walk.py against a small broker: the first order of two contracts rests
-- until it is cancelled with one of them filled, the next order fills.
use wheelta_robinhood_agent.Common.{
  ℕ, suc, ◌+◌, ◌*◌, ◌≡◌, refl, Bool, true, false, none, some, [], ◌∷◌, pos, ltb, if◌then◌else◌,
}
use wheelta_robinhood_agent.OrderWalk.{
  buy_to_close, WalkTiming, working, remaining_quantity, within_bounds,
}
use wheelta_robinhood_agent.Executor.Types.{
  AttemptStatus, ToolCallStatus, continue, Call, quotes, equity_quotes, orders, cancel, account,
  review, place, order_input, is_terminal, OrderLeg, BrokerOrder, Evidence, admitted, WalkJob,
}
use wheelta_robinhood_agent.Executor.Session.{Session, State, returned, second, ◌>>=◌}
use wheelta_robinhood_agent.Executor.Reads.{time_left, review_matches, placed_matches, order_in}
use wheelta_robinhood_agent.Executor.Triples.{IsWorking, Triple}
use wheelta_robinhood_agent.Executor.Orders.{inconsistent, cancel_order}
use wheelta_robinhood_agent.Executor.Orders.Cancelling.{IsOver, cancel_order-IsOver}
use wheelta_robinhood_agent.Executor.Walk.{run}
use wheelta_robinhood_agent.Executor.Walk.Outcomes.{IsEnded, run-IsEnded}

record Market : Type 0 where
  now : ℕ
  last : Call
  placed : ℕ
  was_cancelled : Bool

abbrev no_evidence : Evidence
no_evidence = record {
  option_quotes = [];
  has_underlying_quotes = false;
  order_reviews = [];
  broker_orders = [];
  cancel_requests = [];
}

abbrev the_leg : OrderLeg
the_leg = record { broker_instrument_id = 7; side_raw = some buy_to_close }

abbrev order_of : ℕ → AttemptStatus → ℕ → ℕ → BrokerOrder
order_of order_id status quantity processed = record {
  broker_order_id = order_id;
  status = status;
  quantity = pos quantity;
  processed_quantity = pos processed;
  limit_price = none;
  legs = the_leg ∷ [];
}

abbrev read_of : Market → BrokerOrder
read_of w =
    if w.was_cancelled
    then (if ltb 1 w.placed
        then order_of 2 AttemptStatus.filled 1 1
        else order_of 1 AttemptStatus.cancelled 2 1)
    else order_of 1 AttemptStatus.placed 2 0

abbrev evidence_of : Market → Call → Evidence
evidence_of w (quotes option_id) = record no_evidence {
  option_quotes =
      record { broker_instrument_id = option_id; bid = 290; ask = 320; as_of = w.now } ∷ [];
}
evidence_of w (review input) = record no_evidence {
  order_reviews =
      record {
        clean = true;
        legs = the_leg ∷ [];
        quantity = pos input.quantity;
        is_limit = true;
        is_day = true;
        limit_price = some input.price;
      }
      ∷ [];
}
evidence_of w (place input) = record no_evidence {
  broker_orders = order_of w.placed AttemptStatus.placed input.quantity 0 ∷ [];
}
evidence_of w (orders order_id) = record no_evidence { broker_orders = read_of w ∷ [] }
evidence_of w (cancel order_id) = record no_evidence {
  cancel_requests = record { broker_order_id = order_id; accepted = true } ∷ [];
}
evidence_of w (equity_quotes symbol) = no_evidence
evidence_of w account = no_evidence

abbrev arrive : Call → Market → Market
arrive (place input) w = record w { last = place input; placed = suc w.placed }
arrive (cancel order_id) w = record w { last = cancel order_id; was_cancelled = true }
arrive c w = record w { last = c }

abbrev market : Session
market = record {
  World = Market;
  clock = λ w. (w.now, w);
  stop_requested = λ w. (false, w);
  ended_elsewhere = λ w. (false, w);
  other_jobs = λ w. (false, w);
  underlying = λ option_id w. (none, w);
  admit = λ job c after_stop w. (returned (admitted 1 2), arrive c w);
  transport = λ use_id timeout w. (
    returned (record { status = ToolCallStatus.succeeded; evidence = some (evidence_of w w.last) }),
    w,
  );
  sleep = λ time w. (returned tt, record w { now = w.now + time });
  acquire = λ w. (returned tt, w);
  release = λ w. w;
  record_event = λ name job w. w;
  request_stop = λ w. w;
}

abbrev timing : WalkTiming
timing = record {
  window_seconds = 600;
  max_steps = 3;
  step_wait_seconds = 4;
  poll_seconds = 2;
  step_overhead_seconds = 10;
}

abbrev job : WalkJob
job = record {
  job_id = 1;
  request = record {
    option_id = 7;
    side = buy_to_close;
    quantity = 2;
    start_price = 300;
    worst_price = 310;
  };
  prices = 300 ∷ 305 ∷ 310 ∷ [];
  accepted_at = 0;
  window_end = 600 * second;
  status = working;
  reason = none;
  steps = [];
  filled_quantity = 0;
  ended_at = none;
  done = false;
}

abbrev start : State Market
start = record {
  job = job;
  calls = [];
  world = record { now = 0; last = account; placed = 0; was_cancelled = false };
  placement_ended = false;
}

abbrev ended_state : State Market
ended_state = (run market timing continue (some 60) start).1

run_filled : ended_state.job.filled_quantity ≡ 2
unfolding run ◌>>=◌ time_left remaining_quantity within_bounds review_matches order_input
    placed_matches is_terminal order_in inconsistent
run_filled = refl

run-IsEnded_example : IsEnded job (run market timing continue (some 60) start).1
run-IsEnded_example =
    run-IsEnded market timing continue (some 60) start (record { no_steps = refl; no_fills = refl })

cancel_order-IsOver_example : Triple IsWorking (cancel_order market timing) (IsOver market)
cancel_order-IsOver_example = cancel_order-IsOver market timing
