-- ===== src/Executor/Runner.antt =====
-- agent/order_walk.py: the runner that holds a session's jobs and the admitted calls whose job has not started.
-- A dictionary is the list of its entries, in the order of insertion. The lifecycle event of a start and
-- the task group are outside.
pub mod Starting
mod Tests
use wheelta_robinhood_agent.Common.{
  ℕ, ◌+◌, ◌*◌, Bool, true, false, not, ◌&&◌, Option, none, some, List, [], ◌∷◌, ◌++◌, map, Result,
  ok, err, keep_if, is_empty, is_some, ◌==◌, if◌then◌else◌,
}
use wheelta_robinhood_agent.OrderWalk.{
  TickSchedule, WalkTiming, WalkStatus, working, step_prices, remaining_quantity,
}
use wheelta_robinhood_agent.Executor.Types.{Identifier, WorkRequest, same_side, opening, WalkJob}
use wheelta_robinhood_agent.Executor.Session.{second}

-- domain/facts_compute.py: the ticks of an `OptionInstrument`.
pub record OptionInstrument : Type 0 where
  pub tick_increment : Option ℕ
  pub tick_schedule : Option TickSchedule

abbrev uniform : Option ℕ → Option TickSchedule
uniform none = none
uniform (some tick) = some (record { above_tick = tick; below_tick = tick; cutoff_price = 0 })

abbrev or_uniform : Option TickSchedule → Option ℕ → Option TickSchedule
or_uniform (some ticks) increment = some ticks
or_uniform none increment = uniform increment

unfoldable pub tick_schedule_of : OptionInstrument → Option TickSchedule
tick_schedule_of instrument = or_uniform instrument.tick_schedule instrument.tick_increment

-- A `ValueError` of `step_prices` is a refusal.
abbrev no_error : Result (List ℕ) → Option (List ℕ)
no_error (ok prices) = some prices
no_error (err e) = none

abbrev on_ticks : WorkRequest → ℕ → Option TickSchedule → Option (List ℕ)
on_ticks r max_steps none = none
on_ticks r max_steps (some ticks) =
    no_error (step_prices r.start_price r.worst_price max_steps r.side ticks)

unfoldable pub planned_prices : WorkRequest → Option OptionInstrument → ℕ → Option (List ℕ)
unfolding tick_schedule_of
planned_prices r none max_steps = none
planned_prices r (some instrument) max_steps = on_ticks r max_steps (tick_schedule_of instrument)

pub record Reservation : Type 0 where
  pub job_id : Identifier
  pub request : WorkRequest

pub record Runner : Type 0 where
  pub jobs : List WalkJob
  pub reserved : List Reservation

abbrev pub find_job : List WalkJob → Identifier → Option WalkJob
find_job [] job_id = none
find_job (j ∷ js) job_id = if j.job_id == job_id then some j else find_job js job_id

abbrev pub find_request : List Reservation → Identifier → Option WorkRequest
find_request [] job_id = none
find_request (r ∷ rs) job_id = if r.job_id == job_id then some r.request else find_request rs job_id

-- `pop`
abbrev pub drop_request : List Reservation → Identifier → List Reservation
drop_request [] job_id = []
drop_request (r ∷ rs) job_id =
    if r.job_id == job_id then drop_request rs job_id else r ∷ drop_request rs job_id

abbrev set_request : List Reservation → Identifier → WorkRequest → List Reservation
set_request [] job_id request = record { job_id = job_id; request = request } ∷ []
set_request (r ∷ rs) job_id request =
    if r.job_id == job_id
    then record { job_id = job_id; request = request } ∷ rs
    else r ∷ set_request rs job_id request

unfoldable pub reserve_call : Identifier → WorkRequest → Runner → Runner
reserve_call job_id request runner = record runner {
  reserved = set_request runner.reserved job_id request;
}

unfoldable pub release_call : Identifier → Runner → Runner
release_call job_id runner = record runner { reserved = drop_request runner.reserved job_id }

unfoldable pub pending : Runner → Bool
pending runner = not (is_empty runner.reserved)

abbrev is_working : WalkStatus → Bool
is_working working = true
is_working _ = false

unfoldable pub active : Runner → List WalkJob
active runner = keep_if (λ j. is_working j.status) runner.jobs

pub record ActiveJob : Type 0 where
  pub job_id : Identifier
  pub option_id : Identifier
  pub closing : Bool
  pub remaining : ℕ
  pub worst_price : ℕ

abbrev is_other : Option Identifier → Identifier → Bool
is_other none job_id = true
is_other (some exclude) job_id = not (job_id == exclude)

abbrev of_job : WalkJob → ActiveJob
of_job j = record {
  job_id = j.job_id;
  option_id = j.request.option_id;
  closing = not (opening j.request);
  remaining = remaining_quantity j.request.quantity j.filled_quantity;
  worst_price = j.request.worst_price;
}

abbrev of_reservation : Reservation → ActiveJob
of_reservation r = record {
  job_id = r.job_id;
  option_id = r.request.option_id;
  closing = not (opening r.request);
  remaining = r.request.quantity;
  worst_price = r.request.worst_price;
}

unfoldable pub active_jobs : Option Identifier → Runner → List ActiveJob
unfolding active
active_jobs exclude runner =
    map of_job (keep_if (λ j. is_other exclude j.job_id) (active runner))
    ++ map of_reservation (keep_if (λ r. is_other exclude r.job_id) runner.reserved)

pub data StartAnswer : Type 0 where
  started : WalkJob → StartAnswer
  not_running already_started not_admitted unplanned : StartAnswer

abbrev pub same_request : WorkRequest → WorkRequest → Bool
same_request a b =
    a.option_id == b.option_id
    && same_side a.side b.side
    && a.quantity == b.quantity
    && a.start_price == b.start_price
    && a.worst_price == b.worst_price

abbrev was_admitted : Option WorkRequest → WorkRequest → Bool
was_admitted none request = false
was_admitted (some admitted) request = same_request admitted request

-- The job as `start` makes it.
abbrev pub new_job : WalkTiming → ℕ → Identifier → WorkRequest → List ℕ → WalkJob
new_job timing now job_id request prices = record {
  job_id = job_id;
  request = request;
  prices = prices;
  accepted_at = now;
  window_end = now + timing.window_seconds * second;
  status = working;
  reason = none;
  steps = [];
  filled_quantity = 0;
  ended_at = none;
  done = false;
}

-- What a start answers, and the runner after it.
pub record Start : Type 0 where
  pub answer : StartAnswer
  pub after : Runner

module _ (timing : WalkTiming) (now : ℕ) (job_id : Identifier) (request : WorkRequest) where
  abbrev start_planned : Runner → Option (List ℕ) → Start
  start_planned runner none = record { answer = unplanned; after = runner }
  start_planned runner (some prices) =
      let job = new_job timing now job_id request prices in
      record { answer = started job; after = record runner { jobs = runner.jobs ++ (job ∷ []) } }

  -- `start`; `is_bound` is that the task group, the gate and the transport are there.
  unfoldable pub start : Bool → Option OptionInstrument → Runner → Start
  unfolding planned_prices
  start is_bound instrument runner =
      let popped = record runner { reserved = drop_request runner.reserved job_id } in
      if not is_bound
      then record { answer = not_running; after = popped }
      else if is_some (find_job runner.jobs job_id)
      then record { answer = already_started; after = popped }
      else if not (was_admitted (find_request runner.reserved job_id) request)
      then record { answer = not_admitted; after = popped }
      else start_planned popped (planned_prices request instrument timing.max_steps)
