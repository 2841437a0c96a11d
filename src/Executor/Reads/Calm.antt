-- ===== src/Executor/Reads/Calm.antt =====
-- The executor's reads (agent/order_walk.py) leave the job alone, and what they are good for.
use wheelta_robinhood_agent.Common.{
  ℕ, zero, suc, ◌≡◌, Bool, true, Option, none, some, if◌then◌else◌, inl, inr, Bool-cases,
}
use wheelta_robinhood_agent.OrderWalk.{WalkTiming}
use wheelta_robinhood_agent.Executor.Types.{
  Identifier, is_terminal, Call, Admission, BrokerOrder, Called, Quote, WorkRequest, answered,
  admitted,
}
use wheelta_robinhood_agent.Executor.Session.{Session, pure}
use wheelta_robinhood_agent.Executor.Quiet.{Any, Quiet, quiet_rules, Quiet-pure}
use wheelta_robinhood_agent.Executor.Reads.{
  E, terminal_order, read_answer, clock, stopping, sent, call, time_left, nap_loop, nap, read_order,
  confirm_loop, confirm, check_age, underlying_answer, read_underlying, check_underlying,
  usable_quote, quote_answer, quote,
}

module _ (e : Session) where
  pub clock-Quiet : Quiet Any (clock e)
  unfolding clock
  clock-Quiet = search quiet_rules

  sent-Quiet : (timeout : Option ℕ) (c : Call) (a : Admission) → Quiet Any (sent e timeout c a)
  unfolding sent
  sent-Quiet timeout c Admission.refused = search quiet_rules
  sent-Quiet timeout c (admitted use_id call_id) = search quiet_rules

  pub call-Quiet :
      (after : Bool) (timeout : Option ℕ) (c : Call) → Quiet Any (call e after timeout c)
  unfolding call
  call-Quiet after timeout c = search (quiet_rules, sent-Quiet)

  pub stopping-Quiet : Quiet Any (stopping e)
  unfolding stopping
  stopping-Quiet = search quiet_rules

  pub time_left-Quiet : Quiet Any (time_left e)
  unfolding time_left
  time_left-Quiet = search quiet_rules

  nap_loop-Quiet : (n left : ℕ) → Quiet Any (nap_loop e n left)
  unfolding nap_loop
  nap_loop-Quiet zero left = search quiet_rules
  nap_loop-Quiet (suc n) left = search (quiet_rules, stopping-Quiet, nap_loop-Quiet n)

  pub nap-Quiet : (left : ℕ) → Quiet Any (nap e left)
  unfolding nap
  nap-Quiet left = search (nap_loop-Quiet)

  read_answer-Quiet : (order_id : Identifier) (c : Called) → Quiet Any (read_answer e order_id c)
  unfolding read_answer
  read_answer-Quiet order_id Called.refused = search quiet_rules
  read_answer-Quiet order_id (answered call_id outcome) = search quiet_rules

  pub read_order-Quiet :
      (order_id : Identifier) (timeout : ℕ) → Quiet Any (read_order e order_id timeout)
  unfolding read_order
  read_order-Quiet order_id timeout = search (quiet_rules, call-Quiet, read_answer-Quiet)

  -- `_confirm` returns an order only once it is terminal.
  abbrev pub TerminalIfAny : Option BrokerOrder → Type 0
  TerminalIfAny none = Unit
  TerminalIfAny (some order) = is_terminal order.status ≡ true

  found_if :
      (read : Option BrokerOrder) {x : E e (Option BrokerOrder)}
      → Quiet TerminalIfAny x
      → Quiet TerminalIfAny (if terminal_order e read then pure read else x)
  unfolding terminal_order
  found_if none h = h
  found_if (some order) h = elim (Bool-cases (is_terminal order.status)) [
    | inl final ↦ rw final (Quiet-pure (some order) final)
    | inr more ↦ rw more h
  ]

  confirm_loop-Quiet :
      (timing : WalkTiming) (n deadline : ℕ) (order_id : Identifier)
      → Quiet TerminalIfAny (confirm_loop e timing n deadline order_id)
  unfolding confirm_loop
  confirm_loop-Quiet timing zero deadline order_id = Quiet-pure none tt
  confirm_loop-Quiet timing (suc n) deadline order_id =
      search (quiet_rules, clock-Quiet, read_order-Quiet, found_if, confirm_loop-Quiet timing n)
        depth 12

  pub confirm-Quiet :
      (timing : WalkTiming) (order_id : Identifier) (seconds : ℕ)
      → Quiet TerminalIfAny (confirm e timing order_id seconds)
  unfolding confirm
  confirm-Quiet timing order_id seconds = search (quiet_rules, confirm_loop-Quiet)

  check_age-Quiet : (max_age : Option ℕ) (q : Quote) → Quiet Any (check_age e max_age q)
  unfolding check_age
  check_age-Quiet none q = search quiet_rules
  check_age-Quiet (some age) q = search (quiet_rules, clock-Quiet)

  underlying_answer-Quiet : (c : Called) → Quiet Any (underlying_answer e c)
  unfolding underlying_answer
  underlying_answer-Quiet Called.refused = search quiet_rules
  underlying_answer-Quiet (answered call_id outcome) = search quiet_rules

  read_underlying-Quiet : (symbol : Option Identifier) → Quiet Any (read_underlying e symbol)
  unfolding read_underlying
  read_underlying-Quiet none = search quiet_rules
  read_underlying-Quiet (some symbol) = search (quiet_rules, call-Quiet, underlying_answer-Quiet)

  check_underlying-Quiet : (r : WorkRequest) → Quiet Any (check_underlying e r)
  unfolding check_underlying
  check_underlying-Quiet r = search (quiet_rules, read_underlying-Quiet)

  usable_quote-Quiet :
      (max_age : Option ℕ) (r : WorkRequest) (q : Option Quote)
      → Quiet Any (usable_quote e max_age r q)
  unfolding usable_quote
  usable_quote-Quiet max_age r none = search quiet_rules
  usable_quote-Quiet max_age r (some q) =
      search (quiet_rules, check_age-Quiet, check_underlying-Quiet)

  quote_answer-Quiet :
      (max_age : Option ℕ) (r : WorkRequest) (c : Called) → Quiet Any (quote_answer e max_age r c)
  unfolding quote_answer
  quote_answer-Quiet max_age r Called.refused = search quiet_rules
  quote_answer-Quiet max_age r (answered call_id outcome) = search usable_quote-Quiet

  pub quote-Quiet : (max_age : Option ℕ) → Quiet Any (quote e max_age)
  unfolding quote
  quote-Quiet max_age = search (quiet_rules, call-Quiet, quote_answer-Quiet)
