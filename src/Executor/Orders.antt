-- ===== src/Executor/Orders.antt =====
-- agent/order_walk.py: the order actions of a step, which are to place, to cancel and to settle it.
pub mod Settling
pub mod Cancelling
pub mod Placing
use wheelta_robinhood_agent.Common.{
  ℕ, ◌+◌, ◌*◌, Bool, true, false, not, ◌&&◌, ◌||◌, Option, none, some, List, [], ◌∷◌, any, ℤ, pos,
  pos_part, ltb_ℤ, ltb, ◌==◌, ◌==ℤ◌, if◌then◌else◌,
}
use wheelta_robinhood_agent.OrderWalk.{
  WalkStatus, WalkTiming, stopped, unknown, filled, partially_filled, cancelled,
}
use wheelta_robinhood_agent.Executor.Types
use wheelta_robinhood_agent.Executor.Types.{
  Identifier, AttemptStatus, is_terminal, is_succeeded, is_failed, OrderInput, Call, place, cancel,
  account, BrokerOrder, CancelRequest, Evidence, CallOutcome, Called, answered, WalkStep, WalkJob,
  Reason, run_stop_requested, placement_has_ended, placement_denied, placement_not_sent,
  placement_unknown, no_broker_id, cancel_already_sent, cancel_refused, cancel_not_accepted,
  cancel_not_confirmed, cancel_unknown, inconsistent_fill,
}
use wheelta_robinhood_agent.Executor.Session.{
  Session, State, Outcome, JobEvent, step_placed, Exec, second, pure, end_with, end_job, end_if,
  ◌>>=◌, ◌>>◌, get_job, set_job, change_step, get_step, outside, await, has_ended_placement,
}
use wheelta_robinhood_agent.Executor.Reads.{
  E, clock, stopping, call, time_left, confirm, orders_of, placed_matches, cancel_reserve,
}

-- `_final`
unfoldable pub final : WalkJob → WalkStatus
final job =
    if not (ltb job.filled_quantity job.request.quantity)
    then filled
    else if ltb 0 job.filled_quantity
    then partially_filled
    else cancelled

abbrev pub requests_of : Option Evidence → List CancelRequest
requests_of none = []
requests_of (some evidence) = evidence.cancel_requests

abbrev pub is_filled : AttemptStatus → Bool
is_filled AttemptStatus.filled = true
is_filled _ = false

abbrev pub is_cancelled : AttemptStatus → Bool
is_cancelled AttemptStatus.cancelled = true
is_cancelled _ = false

-- The test of `_settle` that its fills are inconsistent.
unfoldable pub inconsistent : Bool → ℕ → BrokerOrder → Bool
inconsistent strict quantity order =
    ltb_ℤ order.processed_quantity (pos 0)
    || (ltb_ℤ (pos quantity) order.processed_quantity
        || (strict && not (order.quantity ==ℤ pos quantity)
            || (is_filled order.status && not (order.processed_quantity ==ℤ order.quantity)
                || is_cancelled order.status && order.processed_quantity ==ℤ order.quantity)))

-- The writes of `_settle`, on the current step and the job.
abbrev pub count_fill : BrokerOrder → WalkStep → WalkStep
count_fill order step = record step {
  order_status = some order.status;
  filled_quantity = pos_part order.processed_quantity;
}

abbrev pub add_fill : ℕ → WalkJob → WalkJob
add_fill n job = record job { filled_quantity = job.filled_quantity + n }

-- `LATCH_CANCEL_SECONDS` and `CONFIRM_SECONDS`
abbrev pub latch_cancel_seconds : ℕ
latch_cancel_seconds = 30

abbrev confirm_seconds : ℕ
confirm_seconds = 30

module _ (e : Session) where
  change_job : (WalkJob → WalkJob) → E e (Unit {0})
  change_job f = do job ← get_job; set_job (f job)

  -- `_settle`: count the terminal order's fills, once.
  unfoldable pub settle : Bool → BrokerOrder → E e (Unit {0})
  unfolding change_job
  settle strict order = do
    step ← get_step
    end_if (inconsistent strict step.quantity order) unknown inconsistent_fill
    if not (step.filled_quantity == 0) then pure tt else do
      change_step (count_fill order)
      change_job (add_fill (pos_part order.processed_quantity))

  -- `_check_placement_open`: this job's flag, or that of another job.
  unfoldable pub check_placement_open : E e (Unit {0})
  check_placement_open = do
    here ← has_ended_placement
    elsewhere ← outside e.ended_elsewhere
    end_if (here || elsewhere) stopped placement_has_ended

  -- `_event`, recorded with the job as it stands.
  unfoldable pub event : JobEvent → E e (Unit {0})
  event name s = (Outcome.done tt, record s { world = e.record_event name s.job s.world })

  unfoldable pub send_cancel : Bool → Identifier → E e Called
  send_cancel after_stop order_id =
      call e after_stop (if after_stop then some (latch_cancel_seconds * second) else none)
        (cancel order_id)

  unsent : Called → Bool
  unsent Called.refused = true
  unsent (answered call_id outcome) = is_failed outcome.status

  -- The cancel, and the job's one cancel after the stop where the latch fell before the first was
  -- sent; with whether the run is stopping.
  cancel_once : Bool → Identifier → E e (Bool × Called)
  unfolding send_cancel unsent stopping
  cancel_once stop order_id = do
    first ← send_cancel stop order_id
    if not (unsent first && not stop) then pure (stop, first) else do
      fell ← stopping e
      if not fell
          then pure (stop, first)
          else do again ← send_cancel true order_id; pure (true, again)

  or_end : {A : Type 0} → Option A → WalkStatus → Reason → E e A
  or_end none status reason = end_job status reason
  or_end (some a) status reason = pure a

  -- The end of `_cancel`, by whether the cancel was accepted and what the reads found.
  cancel_result : Bool → Option BrokerOrder → E e BrokerOrder
  unfolding settle final
  cancel_result accepted none =
      end_job unknown (if accepted then cancel_not_confirmed else cancel_unknown)
  cancel_result true (some order) = do
    change_step (λ step. record step { order_status = some order.status })
    pure order
  cancel_result false (some order) = do
    settle true order
    job ← get_job
    end_with (final job) cancel_not_accepted true

  accepts : Identifier → CallOutcome → Bool
  accepts order_id outcome =
      is_succeeded outcome.status
      && any (λ r. r.broker_order_id == order_id && r.accepted) (requests_of outcome.evidence)

  module _ (timing : WalkTiming) where
    cancel_answer : Identifier → Bool → Called → E e BrokerOrder
    unfolding cancel_result accepts confirm
    cancel_answer order_id stop Called.refused = do
      change_step (λ step. record step { cancel_sent = false })
      end_job unknown cancel_refused
    cancel_answer order_id stop (answered call_id outcome) = do
      change_step (λ step. record step {
        cancel_tool_call_id = some call_id;
        cancel_sent = if is_failed outcome.status then false else step.cancel_sent;
      })
      found ← confirm e timing order_id (if stop then latch_cancel_seconds else confirm_seconds)
      cancel_result (accepts order_id outcome) found

    -- `_cancel`: cancel the step's working order once, then read until it is terminal.
    unfoldable pub cancel_order : E e BrokerOrder
    unfolding or_end cancel_once cancel_answer stopping
    cancel_order = do
      step ← get_step
      order_id ← or_end step.broker_order_id unknown no_broker_id
      end_if step.cancel_sent unknown cancel_already_sent
      stop ← stopping e
      change_step (λ step. record step { cancel_sent = true })
      (stop', answer) ← cancel_once stop order_id
      cancel_answer order_id stop' answer

    -- `async with self._place_lock`: released however the body ends.
    with_place_lock : {A : Type 0} → E e A → E e A
    with_place_lock body = await e.acquire >> λ s.
        let (r, s') = body s in (r, record s' { world = e.release s'.world })

    append_step : WalkStep → E e (Unit {0})
    append_step step = change_job (λ job. record job { steps = step ∷ job.steps })

    -- What `_place` makes of an answer that reached the broker: exactly one order, or unknown.
    one_order : Bool → List BrokerOrder → E e BrokerOrder
    one_order true (order ∷ []) = do
      change_step (λ step. record step {
        broker_order_id = some order.broker_order_id;
        order_status = some order.status;
      })
      pure order
    one_order _ _ = end_job unknown placement_unknown

    place_answer : ℕ → OrderInput → Called → E e BrokerOrder
    unfolding append_step one_order
    place_answer index input Called.refused = end_job stopped placement_denied
    place_answer index input (answered call_id outcome) =
        if is_failed outcome.status then end_job stopped placement_not_sent else do
          append_step (record {
            index = index;
            price = input.price;
            quantity = input.quantity;
            place_tool_call_id = some call_id;
            broker_order_id = none;
            order_status = none;
            filled_quantity = 0;
            cancel_tool_call_id = none;
            cancel_sent = false;
          })
          one_order (is_succeeded outcome.status) (orders_of outcome.evidence)

    -- Whether there is no time for another step: the window ends the job.
    unfoldable pub out_of_time : E e Bool
    out_of_time = do
      left ← time_left e
      pure (ltb left (timing.poll_seconds * second + cancel_reserve))

    -- The part of `_place` under the lock; none when no time is left.
    place_locked : ℕ → OrderInput → E e (Option BrokerOrder)
    unfolding place_answer out_of_time check_placement_open stopping
    place_locked index input = do
      stop ← stopping e
      end_if stop stopped run_stop_requested
      check_placement_open
      late ← out_of_time
      if late then pure none else do
        others ← outside e.other_jobs
        if others then (do call e false none account; pure tt) else pure tt
        answer ← call e false none (place input)
        order ← place_answer index input answer
        pure (some order)

    -- The broker holds an order that was not asked for: cancel it once, count its fills, end.
    place_result : Option Reason → BrokerOrder → E e (Option BrokerOrder)
    unfolding cancel_order settle
    place_result none order = pure (some order)
    place_result (some differs) order = do
      last ← if is_terminal order.status then pure order else cancel_order
      settle false last
      end_job unknown differs

    placed : ℕ → OrderInput → Option BrokerOrder → E e (Option BrokerOrder)
    unfolding place_result event
    placed index input none = pure none
    placed index input (some order) = do
      event (step_placed index)
      job ← get_job
      place_result (placed_matches order job.request input.price input.quantity) order

    -- `_place`: place one step; none when no time is left.
    unfoldable pub place_order : ℕ → OrderInput → E e (Option BrokerOrder)
    unfolding with_place_lock place_locked placed
    place_order index input = do
      order ← with_place_lock (place_locked index input)
      placed index input order
