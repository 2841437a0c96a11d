-- ===== src/Executor/Reads/Waiting.antt =====
-- Waiting for a fill (`_wait_for_fill` of agent/order_walk.py) keeps the books of the job.
use wheelta_robinhood_agent.Common.{ℕ, zero, suc, leb, refl, Option, none, some}
use wheelta_robinhood_agent.OrderWalk.{WalkTiming}
use wheelta_robinhood_agent.Executor.Types.{Identifier, is_terminal, BrokerOrder, WalkJob}
use wheelta_robinhood_agent.Executor.Session.{Session}
use wheelta_robinhood_agent.Executor.Triples.{IsSound, IsWorking, Triple}
use wheelta_robinhood_agent.Executor.Rules.{
  Triple-bind, Triple-quiet, Triple-pure, Triple-if, Triple-get_job, Triple-weaken,
}
use wheelta_robinhood_agent.Executor.Changes.{change_step-IsWorking}
use wheelta_robinhood_agent.Executor.Reads.{note_read, wait_loop, wait_for_fill}
use wheelta_robinhood_agent.Executor.Reads.Calm.{
  clock-Quiet, stopping-Quiet, nap-Quiet, read_order-Quiet,
}

IsSound-of : (j : WalkJob) → IsWorking j → IsSound j
IsSound-of j p = p.sound

module _ (e : Session) (timing : WalkTiming) where
  note_read-IsWorking :
      (order : BrokerOrder) (read : Option BrokerOrder)
      → Triple IsWorking (note_read e timing order read) (λ o j. IsWorking j)
  unfolding note_read
  note_read-IsWorking order none = Triple-pure order (λ j p. p)
  note_read-IsWorking order (some read) =
      Triple-bind (change_step-IsWorking _ (record { quantity = λ x. refl; filled = λ x. refl }))
        (λ done. Triple-pure read (λ j p. p))

  wait_loop-IsWorking :
      (n : ℕ) (order_id : Identifier) (step_end : ℕ) (order : BrokerOrder)
      → Triple IsWorking (wait_loop e timing n order_id step_end order) (λ o j. IsWorking j)
  unfolding wait_loop
  wait_loop-IsWorking zero order_id step_end order =
      Triple-if (is_terminal order.status) (λ h. Triple-pure order (λ j p. p))
        (λ h. Triple-quiet IsSound-of (stopping-Quiet e) (λ stop any. Triple-pure order (λ j p. p)))
  wait_loop-IsWorking (suc n) order_id step_end order =
      Triple-if (is_terminal order.status) (λ h. Triple-pure order (λ j p. p))
        λ working. Triple-quiet IsSound-of (stopping-Quiet e) λ stop any.
          Triple-if stop (λ h. Triple-pure order (λ j p. p))
            λ going. Triple-quiet IsSound-of (clock-Quiet e) λ now any'.
              Triple-if (leb step_end now) (λ h. Triple-pure order (λ j p. p))
                λ early. Triple-quiet IsSound-of (nap-Quiet e _) λ slept any''.
                  Triple-quiet IsSound-of (stopping-Quiet e) λ stop' any'''.
                    Triple-if stop' (λ h. Triple-pure order (λ j p. p))
                      λ still. Triple-quiet IsSound-of (read_order-Quiet e order_id _) λ read any4.
                        Triple-bind (note_read-IsWorking order read)
                          λ seen. wait_loop-IsWorking n order_id step_end seen

  pub wait_for_fill-IsWorking :
      (order : BrokerOrder) (started : ℕ)
      → Triple IsWorking (wait_for_fill e timing order started) (λ o j. IsWorking j)
  unfolding wait_for_fill
  wait_for_fill-IsWorking order started =
      Triple-get_job
        λ job. Triple-weaken (λ j p. p.0) (wait_loop-IsWorking _ order.broker_order_id _ order)
