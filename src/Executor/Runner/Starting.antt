-- ===== src/Executor/Runner/Starting.antt =====
-- What a started job is, and that a call starts at most one (`start` of agent/order_walk.py).
use wheelta_robinhood_agent.Common.{
  ℕ, ◌≡◌, refl, Bool, true, false, not, Bool-cases, inl, inr, Option, none, some, ap, List, [], ◌∷◌,
  ◌++◌, Result, ok, err, is_some, ◌==◌, if◌then◌else◌, arith,
}
use wheelta_robinhood_agent.OrderWalk.{
  OrderSide, sell_to_open, buy_to_close, TickSchedule, WalkTiming, step_prices,
}
use wheelta_robinhood_agent.Executor.Types.{Identifier, same_side, WorkRequest, WalkJob}
use wheelta_robinhood_agent.Executor.Walk.Outcomes.{IsFresh}
use wheelta_robinhood_agent.Executor.Runner.{
  OptionInstrument, tick_schedule_of, no_error, on_ticks, planned_prices, Reservation, Runner,
  find_job, find_request, drop_request, started, already_started, not_admitted, same_request,
  was_admitted, new_job, Start, start_planned, start,
}

-- The prices are a plan of `step_prices` on the contract's ticks.
pub record IsPlanned (r : WorkRequest) (max_steps : ℕ) (instrument : Option OptionInstrument)
    (prices : List ℕ) : Type 0 where
  pub contract : OptionInstrument
  pub instrument_is : instrument ≡ some contract
  pub ticks : TickSchedule
  pub ticks_are : tick_schedule_of contract ≡ some ticks
  pub planned : step_prices r.start_price r.worst_price max_steps r.side ticks ≡ ok prices

pub record IsStarted (timing : WalkTiming) (job_id : Identifier) (request : WorkRequest)
    (instrument : Option OptionInstrument) (runner after : Runner) (job : WalkJob) : Type 0 where
  pub fresh : IsFresh job
  pub own_request : job.request ≡ request
  pub planned : IsPlanned request timing.max_steps instrument job.prices
  pub admitted : find_request runner.reserved job_id ≡ some request
  pub first : find_job runner.jobs job_id ≡ none
  pub kept : after.jobs ≡ runner.jobs ++ (job ∷ [])
  pub once : find_job after.jobs job_id ≡ some job
  pub released : find_request after.reserved job_id ≡ none

find_append :
    (jobs : List WalkJob) (job : WalkJob)
    → find_job jobs job.job_id ≡ none
    → find_job (jobs ++ (job ∷ [])) job.job_id ≡ some job
find_append [] job h = let same : (job.job_id == job.job_id) ≡ true = ground arith in rw same refl
find_append (j ∷ jobs) job h = elim (Bool-cases (j.job_id == job.job_id)) [
  | inl same ↦ absurd (let h' = rw same at h in cc)
  | inr other ↦ rw other (find_append jobs job (rw other at h))
]

find_dropped :
    (rs : List Reservation) (job_id : Identifier)
    → find_request (drop_request rs job_id) job_id ≡ none
find_dropped [] job_id = refl
find_dropped (r ∷ rs) job_id = elim (Bool-cases (r.job_id == job_id)) [
  | inl same ↦ rw (same, drop_request) (find_dropped rs job_id)
  | inr other ↦ rw (other, drop_request) (rw other (find_dropped rs job_id))
]

same_side-eq : (a b : OrderSide) → same_side a b ≡ true → a ≡ b
same_side-eq sell_to_open sell_to_open h = refl
same_side-eq buy_to_close buy_to_close h = refl
same_side-eq sell_to_open buy_to_close h = absurd cc
same_side-eq buy_to_close sell_to_open h = absurd cc

same_request-eq : (a b : WorkRequest) → same_request a b ≡ true → a ≡ b
same_request-eq a b h =
    let options : a.option_id ≡ b.option_id = ground arith in
    let sides : same_side a.side b.side ≡ true = ground arith in
    let quantities : a.quantity ≡ b.quantity = ground arith in
    let starts : a.start_price ≡ b.start_price = ground arith in
    let worsts : a.worst_price ≡ b.worst_price = ground arith in
    cc (options, same_side-eq a.side b.side sides, quantities, starts, worsts)

admitted-eq :
    (found : Option WorkRequest) (request : WorkRequest)
    → was_admitted found request ≡ true
    → found ≡ some request
admitted-eq none request h = absurd cc
admitted-eq (some kept) request h = ap some (same_request-eq kept request h)

not_found : (o : Option WalkJob) → is_some o ≡ false → o ≡ none
not_found none h = refl
not_found (some job) h = absurd cc

no_error-ok : (r : Result (List ℕ)) (prices : List ℕ) → no_error r ≡ some prices → r ≡ ok prices
no_error-ok (ok ps) prices h = cc
no_error-ok (err e) prices h = absurd cc

on_ticks-IsPlanned :
    (r : WorkRequest) (max_steps : ℕ) (contract : OptionInstrument) (ticks : Option TickSchedule)
    (prices : List ℕ)
    → tick_schedule_of contract ≡ ticks
    → on_ticks r max_steps ticks ≡ some prices
    → IsPlanned r max_steps (some contract) prices
on_ticks-IsPlanned r max_steps contract none prices e h = absurd cc
on_ticks-IsPlanned r max_steps contract (some ticks) prices e h = record {
  contract = contract;
  instrument_is = refl;
  ticks = ticks;
  ticks_are = e;
  planned = no_error-ok (step_prices r.start_price r.worst_price max_steps r.side ticks) prices h;
}

planned_prices-IsPlanned :
    (r : WorkRequest) (max_steps : ℕ) (instrument : Option OptionInstrument) (prices : List ℕ)
    → planned_prices r instrument max_steps ≡ some prices
    → IsPlanned r max_steps instrument prices
unfolding planned_prices
planned_prices-IsPlanned r max_steps none prices h = absurd cc
planned_prices-IsPlanned r max_steps (some contract) prices h =
    on_ticks-IsPlanned r max_steps contract (tick_schedule_of contract) prices refl h

module _ (timing : WalkTiming) (now : ℕ) (job_id : Identifier) (request : WorkRequest)
    (instrument : Option OptionInstrument) (runner : Runner) where
  abbrev popped : Runner
  popped = record runner { reserved = drop_request runner.reserved job_id }

  abbrev Starts : Start → Type 0
  Starts s =
      (job : WalkJob)
      → s.answer ≡ started job
      → IsStarted timing job_id request instrument runner s.after job

  planned-Starts :
      (plan : Option (List ℕ))
      → planned_prices request instrument timing.max_steps ≡ plan
      → was_admitted (find_request runner.reserved job_id) request ≡ true
      → find_job runner.jobs job_id ≡ none
      → Starts (start_planned timing now job_id request popped plan)
  planned-Starts none e a f job h = absurd cc
  planned-Starts (some prices) e a f job h =
      let made : WalkJob = new_job timing now job_id request prices in
      let job_is : made ≡ job = cc h in
      rw (← job_is) (record {
        fresh = record { no_steps = refl; no_fills = refl };
        own_request = refl;
        planned = planned_prices-IsPlanned request timing.max_steps instrument prices e;
        admitted = admitted-eq (find_request runner.reserved job_id) request a;
        first = f;
        kept = refl;
        once = find_append runner.jobs made f;
        released = find_dropped runner.reserved job_id;
      })

  from_tests :
      (known admitted : Bool)
      → is_some (find_job runner.jobs job_id) ≡ known
      → was_admitted (find_request runner.reserved job_id) request ≡ admitted
      → Starts (
          if known
          then record { answer = already_started; after = popped }
          else if not admitted
          then record { answer = not_admitted; after = popped }
          else start_planned timing now job_id request popped
              (planned_prices request instrument timing.max_steps))
  from_tests true admitted f a job h = absurd cc
  from_tests false false f a job h = absurd cc
  from_tests false true f a job h =
      planned-Starts (planned_prices request instrument timing.max_steps) refl a (not_found _ f) job
        h

  -- A start that answers with a job was of a call whose reservation held exactly this request, the worst price
  -- included, and that had no job: the job is fresh, its prices are a plan on the contract's ticks, it is the
  -- job that the call is found to have from then on, and the reservation is dropped.
  pub start-IsStarted :
      (is_bound : Bool) (job : WalkJob)
      → (start timing now job_id request is_bound instrument runner).answer ≡ started job
      → IsStarted timing job_id request instrument runner
          (start timing now job_id request is_bound instrument runner).after
          job
  unfolding start
  start-IsStarted false job h = absurd cc
  start-IsStarted true job h =
      from_tests (is_some (find_job runner.jobs job_id))
        (was_admitted (find_request runner.reserved job_id) request) refl refl job h
