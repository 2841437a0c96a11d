-- ===== src/Executor/Runner/Tests.antt =====
-- A reserved call on a contract with ticks of one unit is started.
use wheelta_robinhood_agent.Common.{◌≡◌, refl, true, none, some, [], ◌∷◌}
use wheelta_robinhood_agent.OrderWalk.{
  sell_to_open, WalkTiming, step_prices, is_valid, wrong_order, step_price, round_to_tick,
}
use wheelta_robinhood_agent.Executor.Types.{WorkRequest, WalkJob}
use wheelta_robinhood_agent.Executor.Runner.{OptionInstrument, Runner, new_job, started, start}
use wheelta_robinhood_agent.Executor.Runner.Starting.{IsStarted, start-IsStarted}

abbrev timing : WalkTiming
timing = record {
  window_seconds = 600;
  max_steps = 2;
  step_wait_seconds = 60;
  poll_seconds = 5;
  step_overhead_seconds = 10;
}

abbrev request : WorkRequest
request = record {
  option_id = 7;
  side = sell_to_open;
  quantity = 2;
  start_price = 4;
  worst_price = 3;
}

abbrev contract : OptionInstrument
contract = record { tick_increment = some 1; tick_schedule = none }

abbrev runner : Runner
runner = record { jobs = []; reserved = record { job_id = 5; request = request } ∷ [] }

abbrev job : WalkJob
job = new_job timing 1000 5 request (4 ∷ 3 ∷ [])

started_job : (start timing 1000 5 request true (some contract) runner).answer ≡ started job
unfolding start step_prices is_valid wrong_order step_price round_to_tick
started_job = refl

start-IsStarted_example :
    IsStarted timing 5 request
      (some contract)
      runner
      (start timing 1000 5 request true (some contract) runner).after
      job
start-IsStarted_example =
    start-IsStarted timing 1000 5 request (some contract) runner true job started_job
