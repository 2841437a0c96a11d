-- ===== src/Executor/Walk/Books.antt =====
-- A walk, whatever its surroundings do, keeps the books of its job (`_walk`, `_run` of
-- agent/order_walk.py).
use wheelta_robinhood_agent.Common.{
  ℕ, suc, ◌≤◌, ◌<◌, ◌≡◌, Bool, true, false, not, ◌&&◌, Option, none, some, List, [], ◌∷◌, arith,
  ltb, ◌==◌,
}
use wheelta_robinhood_agent.OrderWalk.{
  WalkTiming, stopped, partially_filled, cancelled, within_bounds, remaining_quantity,
}
use wheelta_robinhood_agent.Executor.Types.{
  PartialFill, AttemptStatus, OrderInput, order_input, review, OrderReview, BrokerOrder, Called,
  answered, WalkStep, WalkJob, Reason,
}
use wheelta_robinhood_agent.Executor.Session.{Session}
use wheelta_robinhood_agent.Executor.Triples.{IsSound, IsBetween, counted, StepsFit, Triple}
use wheelta_robinhood_agent.Executor.Quiet.{Quiet, Any, quiet_rules}
use wheelta_robinhood_agent.Executor.Rules.{
  Triple-bind, Triple-quiet, Triple-pure, Triple-if, Triple-end_if, Triple-weaken, Triple-get_job,
  Triple-fact,
}
use wheelta_robinhood_agent.Executor.Reads.Calm.{
  call-Quiet, clock-Quiet, stopping-Quiet, quote-Quiet,
}
use wheelta_robinhood_agent.Executor.Reads.Waiting.{wait_for_fill-IsWorking}
use wheelta_robinhood_agent.Executor.Orders.Settling.{settle-IsBetween}
use wheelta_robinhood_agent.Executor.Orders.Placing.{
  HasRoom, IsPlaced, check_placement_open-Quiet, event-Quiet, out_of_time-Quiet, last_order-IsOver,
  place_order-IsPlaced,
}
use wheelta_robinhood_agent.Executor.Walk.{
  check_mismatch, one_review, review_answer, is_rejected, stops_on_partial, after_settle,
  work_order, step, walk,
}

-- What the steps counted never exceeds the target.
pub counted_le :
    (target : ℕ) (steps : List WalkStep) → StepsFit target steps → counted steps ≤ target
counted_le target [] h = omega arith
counted_le target (step ∷ older) h = omega arith

between-IsSound : (j : WalkJob) → IsBetween j → IsSound j
between-IsSound j p = p.sound

pub sound_le : (j : WalkJob) → IsSound j → j.filled_quantity ≤ j.request.quantity
sound_le j h = omega (arith, h.total, counted_le j.request.quantity j.steps h.fit)

remaining-pos : (target done : ℕ) → (remaining_quantity target done == 0) ≡ false → done < target
unfolding remaining_quantity
remaining-pos target done h = ground arith

-- The order of the next step fits what is left of the request.
has_room :
    (job : WalkJob) (price : ℕ) (j : WalkJob)
    → IsBetween j × (j ≡ job)
    → HasRoom
        (order_input job.request price
          (remaining_quantity job.request.quantity job.filled_quantity)).quantity
        j
unfolding order_input remaining_quantity
has_room job price j p =
    let le = rw p.1 at (sound_le j p.0.sound) in
    record { between = p.0; room = rw p.1 (omega (arith, le)) }

module _ (e : Session) (timing : WalkTiming) (partial_fill : PartialFill) (max_age : Option ℕ) where
  check_mismatch-Quiet :
      (mismatch : Option Reason) → Quiet Any (check_mismatch e timing partial_fill max_age mismatch)
  unfolding check_mismatch
  check_mismatch-Quiet none = search quiet_rules
  check_mismatch-Quiet (some mismatch) = search quiet_rules

  one_review-Quiet :
      (input : OrderInput) (succeeded : Bool) (reviews : List OrderReview)
      → Quiet Any (one_review e timing partial_fill max_age input succeeded reviews)
  unfolding one_review
  one_review-Quiet input true (found ∷ []) = search (quiet_rules, check_mismatch-Quiet)
  one_review-Quiet input true [] = search quiet_rules
  one_review-Quiet input true (found ∷ other ∷ reviews) = search quiet_rules
  one_review-Quiet input false reviews = search quiet_rules

  review_answer-Quiet :
      (input : OrderInput) (c : Called)
      → Quiet Any (review_answer e timing partial_fill max_age input c)
  unfolding review_answer
  review_answer-Quiet input Called.refused = search quiet_rules
  review_answer-Quiet input (answered call_id outcome) = search one_review-Quiet

  after_settle-IsBetween :
      (status : AttemptStatus)
      → Triple IsBetween (after_settle e timing partial_fill max_age status) (λ over j. IsBetween j)
  unfolding after_settle
  after_settle-IsBetween status = Triple-get_job λ job.
      Triple-if (not (ltb job.filled_quantity job.request.quantity))
        (λ full. Triple-pure true (λ j p. p.0))
        λ left.
          Triple-end_if (is_rejected status) stopped _ (λ j p. (p.0.sound, λ x. tt))
            λ accepted.
              Triple-quiet (λ j p. p.0.sound) (stopping-Quiet e)
                λ stop any.
                  Triple-end_if stop stopped _ (λ j p. (p.0.sound, λ x. tt))
                    λ going.
                      Triple-end_if (ltb 0 job.filled_quantity && stops_on_partial partial_fill)
                        partially_filled _
                        (λ j p. (p.0.sound, λ partial. rw p.1 (ground arith, ground arith)))
                        (λ goes_on. Triple-pure false (λ j p. p.0))

  work_order-IsBetween :
      (index started : ℕ) (order : Option BrokerOrder)
      → Triple
          (IsPlaced order)
          (work_order e timing partial_fill max_age index started order)
          (λ over j. IsBetween j)
  unfolding work_order
  work_order-IsBetween index started none = Triple-pure true (λ j p. p)
  work_order-IsBetween index started (some order) =
      Triple-bind (wait_for_fill-IsWorking e timing order started) λ seen.
        Triple-bind (last_order-IsOver e timing seen) λ last.
          Triple-fact (λ j p. p.1)
            λ final.
              Triple-bind (Triple-weaken (λ j p. p.0) (settle-IsBetween e true last final)) λ done.
                Triple-quiet between-IsSound (event-Quiet e _)
                  (λ recorded any. after_settle-IsBetween last.status)

  step-IsBetween :
      (index price : ℕ)
      → Triple IsBetween (step e timing partial_fill max_age index price) (λ over j. IsBetween j)
  unfolding step
  step-IsBetween index price = Triple-quiet between-IsSound (stopping-Quiet e) λ stop any.
      Triple-end_if stop stopped _ (λ j p. (p.sound, λ x. tt))
        λ going. Triple-quiet between-IsSound (check_placement_open-Quiet e) λ checked any1.
          Triple-quiet between-IsSound (out_of_time-Quiet e timing) λ late any2.
            Triple-if late (λ x. Triple-pure true (λ j p. p))
              λ early. Triple-get_job λ job.
                Triple-if (remaining_quantity job.request.quantity job.filled_quantity == 0)
                  (λ x. Triple-pure true (λ j p. p.0))
                  λ some_left.
                    let q : ℕ = remaining_quantity job.request.quantity job.filled_quantity in
                    let input = order_input job.request price q in
                    let short = remaining-pos job.request.quantity job.filled_quantity some_left in
                    let sound = λ (j : WalkJob) (p : IsBetween j × (j ≡ job)). p.0.sound in
                    Triple-quiet sound (quote-Quiet e max_age) λ live any3.
                      Triple-end_if (not (within_bounds price live.bid live.ask)) cancelled _
                        (λ j p. (p.0.sound, λ moved. rw p.1 short))
                        λ inside. Triple-quiet sound (clock-Quiet e) λ started any4.
                          Triple-quiet sound (call-Quiet e false none (review input)) λ answer any5.
                            Triple-quiet sound (review_answer-Quiet input answer) λ reviewed any6.
                              Triple-bind
                                (Triple-weaken (has_room job price)
                                  (place_order-IsPlaced e timing index input))
                                (work_order-IsBetween index started)

  pub walk-IsBetween :
      (index : ℕ) (prices : List ℕ)
      → Triple IsBetween (walk e timing partial_fill max_age index prices) (λ done j. IsBetween j)
  unfolding walk
  walk-IsBetween index [] = Triple-pure tt (λ j p. p)
  walk-IsBetween index (price ∷ prices) = Triple-bind (step-IsBetween index price) λ over.
      Triple-if over (λ x. Triple-pure tt (λ j p. p)) (λ more. walk-IsBetween (suc index) prices)
