-- ===== src/Executor/Walk.antt =====
-- agent/order_walk.py: the walk over the planned prices, and the task that runs and ends a job.
pub mod Books
pub mod Outcomes
use wheelta_robinhood_agent.Common.{
  ℕ, suc, ◌+◌, ◌*◌, Bool, true, false, not, ◌&&◌, ◌||◌, Option, none, some, List, [], ◌∷◌, ltb,
  ◌==◌, if◌then◌else◌, is_some, length,
}
use wheelta_robinhood_agent.OrderWalk.{
  WalkStatus, WalkTiming, working, stopped, unknown, partially_filled, cancelled, within_bounds,
  remaining_quantity,
}
use wheelta_robinhood_agent.Executor.Types
use wheelta_robinhood_agent.Executor.Types.{
  Identifier, PartialFill, AttemptStatus, is_terminal, is_terminal_status, is_succeeded, OrderInput,
  order_input, Call, review, Quote, OrderReview, BrokerOrder, CallOutcome, Called, answered,
  WalkStep, WalkJob, Reason, run_stop_requested, quote_moved, review_denied, review_unusable,
  broker_rejected, partial_fill_stop, window_over, executor_failure, executor_cancelled,
}
use wheelta_robinhood_agent.Executor.Session.{
  Session, State, JobEvent, step_ended, ended, Outcome, done, crashed, Exec, pure, end_job, end_if,
  ◌>>=◌, ◌>>◌, get_job, set_job, change_step, get_step,
}
use wheelta_robinhood_agent.Executor.Reads.{
  E, clock, stopping, call, confirm, quote, wait_for_fill, reviews_of, review_matches,
}
use wheelta_robinhood_agent.Executor.Orders.{
  final, settle, check_placement_open, event, latch_cancel_seconds, cancel_order, out_of_time,
  place_order, send_cancel,
}

abbrev is_rejected : AttemptStatus → Bool
is_rejected AttemptStatus.rejected = true
is_rejected _ = false

abbrev stops_on_partial : PartialFill → Bool
stops_on_partial PartialFill.stop = true
stops_on_partial PartialFill.continue = false

module _ (e : Session) (timing : WalkTiming) (partial_fill : PartialFill) (max_age : Option ℕ) where
  -- The review's answer: the call succeeded with one review, and that one matches.
  check_mismatch : Option Reason → E e (Unit {0})
  check_mismatch none = pure tt
  check_mismatch (some mismatch) = end_job stopped mismatch

  one_review : OrderInput → Bool → List OrderReview → E e (Unit {0})
  unfolding check_mismatch
  one_review input true (found ∷ []) = do
    job ← get_job
    check_mismatch (review_matches found job.request input.price input.quantity)
  one_review input _ _ = end_job stopped review_unusable

  review_answer : OrderInput → Called → E e (Unit {0})
  unfolding one_review
  review_answer input Called.refused = end_job stopped review_denied
  review_answer input (answered call_id outcome) =
      one_review input (is_succeeded outcome.status) (reviews_of outcome.evidence)

  -- The end of a step's round: whether the walk is over.
  after_settle : AttemptStatus → E e Bool
  unfolding stopping
  after_settle status = do
    job ← get_job
    if not (ltb job.filled_quantity job.request.quantity) then pure true else do
      end_if (is_rejected status) stopped broker_rejected
      stop ← stopping e
      end_if stop stopped run_stop_requested
      end_if (ltb 0 job.filled_quantity && stops_on_partial partial_fill) partially_filled
          partial_fill_stop
      pure false

  -- From the placed order to the end of the round.
  work_order : ℕ → ℕ → Option BrokerOrder → E e Bool
  unfolding wait_for_fill cancel_order settle event after_settle
  work_order index step_started none = pure true
  work_order index step_started (some order) = do
    seen ← wait_for_fill e timing order step_started
    last ← if is_terminal seen.status then pure seen else cancel_order e timing
    settle e true last
    event e (step_ended index)
    after_settle last.status

  -- One round of the loop of `_walk`; true when the walk is over.
  step : ℕ → ℕ → E e Bool
  unfolding review_answer work_order place_order quote check_placement_open out_of_time
  step index price = do
    stop ← stopping e
    end_if stop stopped run_stop_requested
    check_placement_open e
    late ← out_of_time e timing
    if late then pure true else do
      job ← get_job
      let quantity = remaining_quantity job.request.quantity job.filled_quantity
      if quantity == 0 then pure true else do
        live ← quote e max_age
        end_if (not (within_bounds price live.bid live.ask)) cancelled quote_moved
        let input = order_input job.request price quantity
        step_started ← clock e
        answer ← call e false none (review input)
        review_answer input answer
        order ← place_order e timing index input
        work_order index step_started order

  -- `_walk`, over the prices from the given step on.
  unfoldable pub walk : ℕ → List ℕ → E e (Unit {0})
  unfolding step
  walk index [] = pure tt
  walk index (price ∷ prices) =
      let rest = walk (suc index) prices in
      do over ← step index price; if over then pure tt else rest

  -- `_end`
  unfoldable pub finish : WalkStatus → Reason → State e.World → State e.World
  unfolding event clock
  finish status reason s =
      let (now, w) = e.clock s.world in
      let job = record s.job { status = status; reason = some reason; ended_at = some now } in
      let w' = e.record_event ended job w in
      record s { job = record job { done = true }; world = w' }

  -- `working_order_id` of a step that has no cancel out: the order that `_salvage` cancels.
  leftover : List WalkStep → Option Identifier
  leftover [] = none
  leftover (step ∷ older) =
      if step.cancel_sent || is_terminal_status step.order_status
      then none
      else step.broker_order_id

  salvage_found : Option BrokerOrder → E e (Unit {0})
  unfolding settle
  salvage_found none = pure tt
  salvage_found (some order) = settle e true order

  salvage_answer : Identifier → Called → E e (Unit {0})
  unfolding salvage_found confirm
  salvage_answer order_id Called.refused = pure tt
  salvage_answer order_id (answered call_id outcome) = do
    change_step (λ step. record step { cancel_tool_call_id = some call_id })
    found ← confirm e timing order_id latch_cancel_seconds
    salvage_found found

  salvage_order : Option Identifier → E e (Unit {0})
  unfolding salvage_answer call
  salvage_order none = pure tt
  salvage_order (some order_id) = do
    change_step (λ step. record step { cancel_sent = true })
    answer ← send_cancel e true order_id
    salvage_answer order_id answer

  -- `_salvage`: whatever stops it, the bounded time included, is dropped.
  unfoldable pub salvage : State e.World → State e.World
  unfolding salvage_order leftover
  salvage s = (salvage_order (leftover s.job.steps) s).1

  abbrev is_cancelled_status : WalkStatus → Bool
  is_cancelled_status WalkStatus.cancelled = true
  is_cancelled_status _ = false

  abbrev is_unknown_status : WalkStatus → Bool
  is_unknown_status WalkStatus.unknown = true
  is_unknown_status _ = false

  -- The three ways out of the walk in `_run`, with whether the exception is raised on.
  close : Outcome (Unit {0}) → State e.World → Bool × State e.World
  unfolding finish final salvage
  close (done value) s = (false, finish (final s.job) window_over s)
  close (Outcome.ended status reason ends_placement) s =
      let status' =
        if is_cancelled_status status && ltb 0 s.job.filled_quantity
        then partially_filled
        else status in
      let flag = s.placement_ended || (is_unknown_status status' || ends_placement) in
      (false, finish status' reason (record s { placement_ended = flag }))
  close (crashed failure) s =
      let s' = record s {
        placement_ended = true;
        world = if failure then e.request_stop s.world else s.world;
      } in
      (
        not failure,
        finish unknown (if failure then executor_failure else executor_cancelled) (salvage s'),
      )

  -- `_run`
  unfoldable pub run : State e.World → Bool × State e.World
  unfolding walk close
  run s = let (outcome, s') = walk 1 s.job.prices s in close outcome s'
