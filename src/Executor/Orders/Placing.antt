-- ===== src/Executor/Orders/Placing.antt =====
-- Placing a step's order (`_place` of agent/order_walk.py) keeps the books of the job.
use wheelta_robinhood_agent.Common.{
  ℕ, ◌+◌, ◌≤◌, ◌≡◌, refl, Bool, true, false, Option, none, some, List, [], ◌∷◌, arith,
  if◌then◌else◌,
}
use wheelta_robinhood_agent.OrderWalk.{WalkTiming, stopped, unknown}
use wheelta_robinhood_agent.Executor.Types.{
  place, account, is_terminal, is_failed, OrderInput, BrokerOrder, Called, answered, WalkStep,
  WalkJob, Reason,
}
use wheelta_robinhood_agent.Executor.Session.{
  Session, State, Outcome, JobEvent, done, ended, crashed, pure, ◌>>=◌, ◌>>◌,
}
use wheelta_robinhood_agent.Executor.Triples.{IsSound, IsBetween, IsWorking, Ends, Triple}
use wheelta_robinhood_agent.Executor.Quiet.{Quiet, Any, quiet_rules, Quiet-await, Quiet-outside}
use wheelta_robinhood_agent.Executor.Rules.{
  Triple-bind, Triple-quiet, Triple-pure, Triple-end, Triple-if, Triple-end_if, Triple-weaken,
  Triple-get_job,
}
use wheelta_robinhood_agent.Executor.Changes.{change_step-IsWorking}
use wheelta_robinhood_agent.Executor.Reads.{E, call}
use wheelta_robinhood_agent.Executor.Reads.Calm.{call-Quiet, stopping-Quiet, time_left-Quiet}
use wheelta_robinhood_agent.Executor.Orders.{
  check_placement_open, event, change_job, append_step, one_order, place_answer, out_of_time,
  place_locked, with_place_lock, place_result, placed, place_order, cancel_order,
}
use wheelta_robinhood_agent.Executor.Orders.Settling.{settle-IsSound}
use wheelta_robinhood_agent.Executor.Orders.Cancelling.{IsOver, cancel_order-IsOver}

-- Between two rounds, and the quantity that is to be placed still fits the request.
pub record HasRoom (quantity : ℕ) (job : WalkJob) : Type 0 where
  pub between : IsBetween job
  pub room : quantity + job.filled_quantity ≤ job.request.quantity

-- With an order the step works; with none nothing was placed.
abbrev pub IsPlaced : Option BrokerOrder → WalkJob → Type 0
IsPlaced none job = IsBetween job
IsPlaced (some order) job = IsWorking job

module _ (e : Session) where
  pub check_placement_open-Quiet : Quiet Any (check_placement_open e)
  unfolding check_placement_open
  check_placement_open-Quiet = search quiet_rules

  pub event-Quiet : (name : JobEvent) → Quiet Any (event e name)
  unfolding event
  event-Quiet name = record { at = λ s. (refl, tt); flag = λ s. refl }

  account_read-Quiet :
      (others : Bool)
      → Quiet Any (if others then (do call e false none account; pure tt) else pure tt)
  account_read-Quiet others = search (quiet_rules, call-Quiet)

  module _ (timing : WalkTiming) where
    pub out_of_time-Quiet : Quiet Any (out_of_time e timing)
    unfolding out_of_time
    out_of_time-Quiet = search (quiet_rules, time_left-Quiet)

    released :
        {A : Type 0} (Q : A → WalkJob → Type 0) (r : Outcome A × State e.World)
        → Ends Q r
        → Ends Q (r.0, record r.1 { world = e.release r.1.world })
    released Q (done a, s) h = h
    released Q (ended status reason ends_placement, s) h = h
    released Q (crashed failure, s) h = h

    with_place_lock-Triple :
        {A : Type 0} {P : WalkJob → Type 0} {Q : A → WalkJob → Type 0} {body : E e A}
        → ((j : WalkJob) → P j → IsSound j)
        → Triple P body Q
        → Triple P (with_place_lock e timing body) Q
    unfolding with_place_lock
    with_place_lock-Triple {Q} {body} sound h =
        Triple-quiet sound (Quiet-await e.acquire) (λ got any. record {
          at = λ s p. released Q (body s) (h.at s p);
          keeps = λ s p. h.keeps s p;
        })

    append_step-IsWorking :
        (step : WalkStep)
        → step.filled_quantity ≡ 0
        → Triple (HasRoom step.quantity) (append_step e timing step) (λ done j. IsWorking j)
    unfolding append_step change_job ◌>>=◌
    append_step-IsWorking step fresh = record {
      at = λ s p.
          let h = p.between.sound in
          record {
            sound = record {
              total = omega (arith, h.total, fresh);
              fit = (omega (arith, p.room, h.total), omega (arith, fresh), h.fit);
              settled = p.between.all_settled;
            };
            uncounted = fresh;
          };
      keeps = λ s p. (refl, refl);
    }

    one_order-IsWorking :
        (succeeded : Bool) (orders : List BrokerOrder)
        → Triple IsWorking (one_order e timing succeeded orders) (λ order j. IsWorking j)
    unfolding one_order
    one_order-IsWorking true (order ∷ []) =
        Triple-bind (change_step-IsWorking _ (record { quantity = λ x. refl; filled = λ x. refl }))
          (λ done. Triple-pure order (λ j p. p))
    one_order-IsWorking true [] = Triple-end unknown _ false (λ j p. (p.sound, tt))
    one_order-IsWorking true (order ∷ other ∷ orders) =
        Triple-end unknown _ false (λ j p. (p.sound, tt))
    one_order-IsWorking false orders = Triple-end unknown _ false (λ j p. (p.sound, tt))

    place_answer-IsWorking :
        (index : ℕ) (input : OrderInput) (c : Called)
        → Triple
            (HasRoom input.quantity)
            (place_answer e timing index input c)
            (λ order j. IsWorking j)
    unfolding place_answer
    place_answer-IsWorking index input Called.refused =
        Triple-end stopped _ false (λ j p. (p.between.sound, tt))
    place_answer-IsWorking index input (answered call_id outcome) =
        Triple-if (is_failed outcome.status)
          (λ unsent. Triple-end stopped _ false (λ j p. (p.between.sound, tt)))
          λ sent. Triple-bind (append_step-IsWorking _ refl) (λ done. one_order-IsWorking _ _)

    room-IsSound : (quantity : ℕ) (j : WalkJob) → HasRoom quantity j → IsSound j
    room-IsSound quantity j p = p.between.sound

    place_locked-IsPlaced :
        (index : ℕ) (input : OrderInput)
        → Triple (HasRoom input.quantity) (place_locked e timing index input) IsPlaced
    unfolding place_locked
    place_locked-IsPlaced index input =
        let sound = room-IsSound input.quantity in
        Triple-quiet sound (stopping-Quiet e) λ stop any.
          Triple-end_if stop stopped _ (λ j p. (sound j p, λ x. tt))
            λ going. Triple-quiet sound check_placement_open-Quiet λ checked any1.
              Triple-quiet sound out_of_time-Quiet λ late any2.
                Triple-if late (λ x. Triple-pure none (λ j p. p.between))
                  λ early. Triple-quiet sound (Quiet-outside e.other_jobs) λ others any3.
                    Triple-quiet sound (account_read-Quiet others) λ read any4.
                      Triple-quiet sound (call-Quiet e false none (place input)) λ answer any5.
                        Triple-bind (place_answer-IsWorking index input answer)
                          λ order. Triple-pure (some order) (λ j p. p)

    pub last_order-IsOver :
        (order : BrokerOrder)
        → Triple IsWorking
            (if is_terminal order.status then pure order else cancel_order e timing)
            (IsOver e)
    last_order-IsOver order =
        Triple-if (is_terminal order.status) (λ final. Triple-pure order (λ j p. (p, final)))
          (λ working. cancel_order-IsOver e timing)

    place_result-IsPlaced :
        (differs : Option Reason) (order : BrokerOrder)
        → Triple IsWorking (place_result e timing differs order) IsPlaced
    unfolding place_result
    place_result-IsPlaced none order = Triple-pure (some order) (λ j p. p)
    place_result-IsPlaced (some differs) order = Triple-bind (last_order-IsOver order) λ last.
        Triple-bind (Triple-weaken (λ j p. p.0.sound) (settle-IsSound e false last))
          (λ done. Triple-end unknown differs false (λ j p. (p, tt)))

    placed-IsPlaced :
        (index : ℕ) (input : OrderInput) (order : Option BrokerOrder)
        → Triple (IsPlaced order) (placed e timing index input order) IsPlaced
    unfolding placed
    placed-IsPlaced index input none = Triple-pure none (λ j p. p)
    placed-IsPlaced index input (some order) =
        Triple-quiet (λ j p. p.sound) (event-Quiet _)
          λ done any.
            Triple-get_job λ job. Triple-weaken (λ j p. p.0) (place_result-IsPlaced _ order)

    -- Between two rounds, placing a quantity that fits what is left of the request leaves a new step that has
    -- counted nothing, or the books as between two rounds where nothing was placed; every other way out
    -- leaves sound books.
    pub place_order-IsPlaced :
        (index : ℕ) (input : OrderInput)
        → Triple (HasRoom input.quantity) (place_order e timing index input) IsPlaced
    unfolding place_order
    place_order-IsPlaced index input =
        Triple-bind
          (with_place_lock-Triple (room-IsSound input.quantity) (place_locked-IsPlaced index input))
          (placed-IsPlaced index input)
