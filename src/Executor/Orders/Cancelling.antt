-- ===== src/Executor/Orders/Cancelling.antt =====
-- Cancelling a step's order (`_cancel` of agent/order_walk.py) keeps the books of the job, and the order
-- that it returns is terminal.
use wheelta_robinhood_agent.Common.{
  ltb, arith, ◌≡◌, refl, Bool, true, false, inl, inr, Bool-cases, Option, none, some,
}
use wheelta_robinhood_agent.OrderWalk.{WalkTiming, unknown}
use wheelta_robinhood_agent.Executor.Types.{
  Identifier, is_terminal, BrokerOrder, WalkJob, Called, answered, Reason, cancel_not_accepted,
}
use wheelta_robinhood_agent.Executor.Session.{Session}
use wheelta_robinhood_agent.Executor.Triples.{IsWorking, Justified, Triple}
use wheelta_robinhood_agent.Executor.Quiet.{Quiet, Any, quiet_rules}
use wheelta_robinhood_agent.Executor.Rules.{
  Triple-bind, Triple-quiet, Triple-pure, Triple-end, Triple-end_if, Triple-weaken,
  Triple-strengthen, Triple-get_job,
}
use wheelta_robinhood_agent.Executor.Changes.{change_step-IsWorking}
use wheelta_robinhood_agent.Executor.Reads.Calm.{
  TerminalIfAny, call-Quiet, stopping-Quiet, confirm-Quiet,
}
use wheelta_robinhood_agent.Executor.Orders.{
  final, send_cancel, cancel_once, or_end, cancel_result, accepts, cancel_answer, cancel_order,
}
use wheelta_robinhood_agent.Executor.Orders.Settling.{settle-IsSound, get_step-IsHead}

-- `_final` is justified by the fills that it reads.
pub final-Justified : (job : WalkJob) → Justified (final job) job
unfolding final
final-Justified job = elim (Bool-cases (ltb job.filled_quantity job.request.quantity)) [
  | inl some_left ↦ elim (Bool-cases (ltb 0 job.filled_quantity)) [
    | inl any_filled ↦ rw (some_left, any_filled) (ground arith, ground arith)
    | inr none_filled ↦ rw (some_left, none_filled) (ground arith)
  ]
  | inr full ↦ rw full (ground arith)
]

module _ (e : Session) where
  pub send_cancel-Quiet :
      (after : Bool) (order_id : Identifier) → Quiet Any (send_cancel e after order_id)
  unfolding send_cancel
  send_cancel-Quiet after order_id = search (call-Quiet)

  cancel_once-Quiet :
      (stop : Bool) (order_id : Identifier) → Quiet Any (cancel_once e stop order_id)
  unfolding cancel_once
  cancel_once-Quiet stop order_id = search (quiet_rules, send_cancel-Quiet) depth 12

  -- The step still works, and the order that was last seen is terminal.
  abbrev pub IsOver : BrokerOrder → WalkJob → Type 0
  IsOver order job = IsWorking job × (is_terminal order.status ≡ true)

  or_end-IsWorking :
      {A : Type 0} (o : Option A) (reason : Reason)
      → Triple {W = e.World} IsWorking (or_end e o unknown reason) (λ a j. IsWorking j)
  unfolding or_end
  or_end-IsWorking none reason = Triple-end unknown reason false (λ j p. (p.sound, tt))
  or_end-IsWorking (some a) reason = Triple-pure a (λ j p. p)

  cancel_result-IsOver :
      (accepted : Bool) (found : Option BrokerOrder)
      → TerminalIfAny e found
      → Triple {W = e.World} IsWorking (cancel_result e accepted found) IsOver
  unfolding cancel_result
  cancel_result-IsOver accepted none h = Triple-end unknown _ false (λ j p. (p.sound, tt))
  cancel_result-IsOver true (some order) h =
      Triple-bind
        (change_step-IsWorking (λ step. record step { order_status = some order.status })
          (record { quantity = λ x. refl; filled = λ x. refl }))
        (λ done. Triple-pure order (λ j p. (p, h)))
  cancel_result-IsOver false (some order) h =
      Triple-bind (Triple-weaken (λ j p. p.sound) (settle-IsSound e true order)) λ done.
        Triple-get_job λ job.
          Triple-end (final job) cancel_not_accepted true
            (λ j p. (p.0, rw p.1 (final-Justified job)))

  cancel_answer-IsOver :
      (timing : WalkTiming) (order_id : Identifier) (stop : Bool) (c : Called)
      → Triple {W = e.World} IsWorking (cancel_answer e timing order_id stop c) IsOver
  unfolding cancel_answer
  cancel_answer-IsOver timing order_id stop Called.refused =
      Triple-bind
        (change_step-IsWorking (λ step. record step { cancel_sent = false })
          (record { quantity = λ x. refl; filled = λ x. refl }))
        (λ done. Triple-end unknown _ false (λ j p. (p.sound, tt)))
  cancel_answer-IsOver timing order_id stop (answered call_id outcome) =
      Triple-bind (change_step-IsWorking _ (record { quantity = λ x. refl; filled = λ x. refl }))
        λ done.
          Triple-quiet (λ j p. p.sound) (confirm-Quiet e timing order_id _)
            (cancel_result-IsOver (accepts e order_id outcome))

  -- From sound books and a step that has counted nothing, cancelling returns only with a terminal order, the step
  -- still uncounted; every other way out leaves sound books, and ends the job only with a status that the
  -- fills justify.
  pub cancel_order-IsOver :
      (timing : WalkTiming) → Triple {W = e.World} IsWorking (cancel_order e timing) IsOver
  unfolding cancel_order
  cancel_order-IsOver timing =
      Triple-bind (Triple-strengthen (λ step j p. p.0) (get_step-IsHead e (λ j p. p.sound))) λ step.
        Triple-bind (or_end-IsWorking step.broker_order_id _) λ order_id.
          Triple-end_if step.cancel_sent unknown _ (λ j p. (p.sound, λ x. tt))
            λ fresh.
              Triple-quiet (λ j p. p.sound) (stopping-Quiet e)
                λ stop any.
                  Triple-bind
                    (change_step-IsWorking (λ step. record step { cancel_sent = true })
                      (record { quantity = λ x. refl; filled = λ x. refl }))
                    λ done.
                      Triple-quiet (λ j p. p.sound) (cancel_once-Quiet stop order_id)
                        λ (stop', answer) any'. cancel_answer-IsOver timing order_id stop' answer
