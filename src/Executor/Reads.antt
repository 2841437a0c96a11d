-- ===== src/Executor/Reads.antt =====
-- agent/order_walk.py: the executor's calls, and the steps of a walk that only read.
pub mod Calm
pub mod Waiting
pub mod Naps
use wheelta_robinhood_agent.Common.{
  ℕ, zero, suc, ◌+◌, ◌-◌, ◌*◌, ◌/◌, min, max, Bool, true, false, not, ◌&&◌, ◌||◌, Option, none,
  some, List, [], ◌∷◌, keep_if, get_last?, pos, ltb, leb, ◌==◌, ◌==ℤ◌, if◌then◌else◌, is_some,
}
use wheelta_robinhood_agent.OrderWalk.{OrderSide, WalkStatus, WalkTiming, stopped, ceil_div}
use wheelta_robinhood_agent.Executor.Types.{
  Identifier, AttemptStatus, is_terminal, same_side, WorkRequest, opening, Call, quotes,
  equity_quotes, orders, Quote, OrderLeg, OrderReview, BrokerOrder, Evidence, CallOutcome,
  Admission, admitted, Called, answered, WalkStep, WalkJob, Reason, quote_denied, no_quote,
  stale_quote, underlying_unknown, no_underlying_quote, placement_has_ended, review_alert,
  review_legs, review_quantity, review_type, review_time_in_force, review_price, placed_leg,
  placed_quantity, placed_price, is_terminal_status,
}
use wheelta_robinhood_agent.Executor.Session.{
  Session, State, Exec, Reply, second, pure, end_job, end_if, record_call, change_step, ◌>>=◌, ◌>>◌,
  get_job, outside, await,
}

-- The lists of an outcome's evidence, empty where there is none.
abbrev pub quotes_of : Option Evidence → List Quote
quotes_of none = []
quotes_of (some evidence) = evidence.option_quotes

abbrev pub reviews_of : Option Evidence → List OrderReview
reviews_of none = []
reviews_of (some evidence) = evidence.order_reviews

abbrev pub orders_of : Option Evidence → List BrokerOrder
orders_of none = []
orders_of (some evidence) = evidence.broker_orders

abbrev pub has_underlying : Option Evidence → Bool
has_underlying none = false
has_underlying (some evidence) = evidence.has_underlying_quotes

abbrev pub names : Option OrderSide → OrderSide → Bool
names none side = false
names (some raw) side = same_side raw side

-- `legs != [(request.option_id, request.side.value)]`, negated.
unfoldable pub legs_match : List OrderLeg → WorkRequest → Bool
legs_match [] r = false
legs_match (leg ∷ []) r = leg.broker_instrument_id == r.option_id && names leg.side_raw r.side
legs_match (leg ∷ other ∷ legs) r = false

abbrev pub same_price : Option ℕ → ℕ → Bool
same_price none price = false
same_price (some p) price = p == price

-- `_review_matches`: why the review does not match the intended order.
unfoldable pub review_matches : OrderReview → WorkRequest → ℕ → ℕ → Option Reason
unfolding legs_match
review_matches review r price quantity =
    if not review.clean
    then some review_alert
    else if not (legs_match review.legs r)
    then some review_legs
    else if not (review.quantity ==ℤ pos quantity)
    then some review_quantity
    else if not review.is_limit
    then some review_type
    else if not review.is_day
    then some review_time_in_force
    else if not (same_price review.limit_price price)
    then some review_price
    else none

-- `_placed_matches`: why the broker's order differs from what was sent.
unfoldable pub placed_matches : BrokerOrder → WorkRequest → ℕ → ℕ → Option Reason
unfolding legs_match
placed_matches order r price quantity =
    if not (legs_match order.legs r)
    then some placed_leg
    else if not (order.quantity ==ℤ pos quantity)
    then some placed_quantity
    else if is_some order.limit_price && not (same_price order.limit_price price)
    then some placed_price
    else none

-- `_order_in`
unfoldable pub order_in : CallOutcome → Identifier → Option BrokerOrder
order_in outcome order_id =
    get_last? (keep_if (λ o. o.broker_order_id == order_id) (orders_of outcome.evidence))

-- `CANCEL_RESERVE_SECONDS`
abbrev pub cancel_reserve : ℕ
cancel_reserve = 5 * second

module _ (e : Session) where
  abbrev pub E : Type 0 → Type 0
  E A = Exec (State e.World) A

  unfoldable pub clock : E ℕ
  clock = outside e.clock

  -- `_stopping`
  unfoldable pub stopping : E Bool
  stopping = outside e.stop_requested

  sent : Option ℕ → Call → Admission → E Called
  sent timeout c Admission.refused = pure Called.refused
  sent timeout c (admitted use_id call_id) = do
    record_call c
    outcome ← await (e.transport use_id timeout)
    pure (answered call_id outcome)

  -- `_call`: the gate admits the call and records it, and then the proxy sends it.
  unfoldable pub call : Bool → Option ℕ → Call → E Called
  unfolding sent
  call after_stop_cancel timeout c = do
    job ← get_job
    admission ← await (e.admit job c after_stop_cancel)
    sent timeout c admission

  -- `_seconds_left`, in microseconds; below zero it is 0, and it is only asked whether it is less than
  -- a positive time.
  unfoldable pub time_left : E ℕ
  unfolding clock
  time_left = do now ← clock; job ← get_job; pure (job.window_end - now)

  -- `while left > 0 and not self._stopping()`, on fuel.
  pub nap_loop : ℕ → ℕ → E (Unit {0})
  nap_loop zero left = pure tt
  nap_loop (suc n) left =
      let rest = nap_loop n (left - min second left) in
      if left == 0
      then pure tt
      else do stop ← stopping; if stop then pure tt else do await (e.sleep (min second left)); rest

  -- `_nap`: at most one round for each second begun.
  unfoldable pub nap : ℕ → E (Unit {0})
  unfolding nap_loop stopping
  nap left = nap_loop (suc (left / second)) left

  read_answer : Identifier → Called → E (Option BrokerOrder)
  read_answer order_id Called.refused = pure none
  read_answer order_id (answered call_id outcome) = pure (order_in outcome order_id)

  -- `_read_order`
  unfoldable pub read_order : Identifier → ℕ → E (Option BrokerOrder)
  unfolding read_answer call
  read_order order_id timeout = do
    answer ← call false (some timeout) (orders order_id)
    read_answer order_id answer

  terminal_order : Option BrokerOrder → Bool
  terminal_order none = false
  terminal_order (some order) = is_terminal order.status

  module _ (timing : WalkTiming) where
    confirm_loop : ℕ → ℕ → Identifier → E (Option BrokerOrder)
    confirm_loop zero deadline order_id = pure none
    confirm_loop (suc reads) deadline order_id =
        let rest = confirm_loop reads deadline order_id in
        do
          now ← clock
          if leb deadline now then pure none else do
            read ← read_order order_id (deadline - now)
            if terminal_order read then pure read else do
              later ← clock
              if leb deadline later then pure none else do
                await (e.sleep (min (timing.poll_seconds * second) (deadline - later)))
                rest

    -- `_confirm`: read the order until it is terminal, within `seconds`.
    unfoldable pub confirm : Identifier → ℕ → E (Option BrokerOrder)
    unfolding confirm_loop clock read_order terminal_order
    confirm order_id seconds = do
      now ← clock
      confirm_loop (suc (ceil_div seconds timing.poll_seconds)) (now + seconds * second) order_id

    -- What a read leaves of the order last seen, noted on the step.
    note_read : BrokerOrder → Option BrokerOrder → E BrokerOrder
    note_read order none = pure order
    note_read order (some read) = do
      change_step (λ step. record step { order_status = some read.status })
      pure read

    -- The loop of `_wait_for_fill`, with the order as last seen.
    wait_loop : ℕ → Identifier → ℕ → BrokerOrder → E BrokerOrder
    wait_loop zero order_id step_end order =
        if is_terminal order.status then pure order else do stopping; pure order
    wait_loop (suc reads) order_id step_end order =
        let next = wait_loop reads order_id step_end in
        if is_terminal order.status then pure order else do
          stop ← stopping
          if stop then pure order else do
            now ← clock
            if leb step_end now then pure order else do
              nap (min (timing.poll_seconds * second) (step_end - now))
              stop' ← stopping
              if stop' then pure order else do
                read ← read_order order_id (max (step_end - now) (timing.poll_seconds * second))
                seen ← note_read order read
                next seen

    -- `_wait_for_fill`, from the order that was placed.
    unfoldable pub wait_for_fill : BrokerOrder → ℕ → E BrokerOrder
    unfolding wait_loop note_read stopping clock nap read_order
    wait_for_fill order step_started = do
      job ← get_job
      let step_end =
          min (step_started + timing.step_wait_seconds * second) (job.window_end - cancel_reserve)
      wait_loop (ceil_div timing.step_wait_seconds timing.poll_seconds) order.broker_order_id
          step_end order

  -- The checks of `_quote` on the last quote of the contract.
  check_age : Option ℕ → Quote → E (Unit {0})
  check_age none quote = pure tt
  check_age (some max_age) quote = do
    now ← clock
    end_if (ltb (max_age * second) (now - quote.as_of)) stopped stale_quote

  underlying_answer : Called → E (Unit {0})
  underlying_answer Called.refused = end_job stopped no_underlying_quote
  underlying_answer (answered call_id outcome) =
      end_if (not (has_underlying outcome.evidence)) stopped no_underlying_quote

  read_underlying : Option Identifier → E (Unit {0})
  unfolding underlying_answer
  read_underlying none = end_job stopped underlying_unknown
  read_underlying (some symbol) = do
    answer ← call false none (equity_quotes symbol)
    underlying_answer answer

  check_underlying : WorkRequest → E (Unit {0})
  unfolding read_underlying
  check_underlying r =
      if opening r
      then (do symbol ← outside (e.underlying r.option_id); read_underlying symbol)
      else pure tt

  usable_quote : Option ℕ → WorkRequest → Option Quote → E Quote
  unfolding check_age check_underlying clock call
  usable_quote max_age r none = end_job stopped no_quote
  usable_quote max_age r (some quote) = do check_age max_age quote; check_underlying r; pure quote

  quote_answer : Option ℕ → WorkRequest → Called → E Quote
  unfolding usable_quote
  quote_answer max_age r Called.refused = end_job stopped quote_denied
  quote_answer max_age r (answered call_id outcome) = usable_quote max_age r (
      get_last? (keep_if (λ q. q.broker_instrument_id == r.option_id) (quotes_of outcome.evidence)))

  -- `_quote`: the live quote of the contract, and for a sale one of its underlying.
  unfoldable pub quote : Option ℕ → E Quote
  unfolding quote_answer call
  quote max_age = do
    job ← get_job
    answer ← call false none (quotes job.request.option_id)
    quote_answer max_age job.request answer
