-- ===== src/Executor/Orders/Settling.antt =====
-- Counting a step's fills and cancelling its order (`_settle`, `_cancel` of agent/order_walk.py) keep
-- the books of the job.
use wheelta_robinhood_agent.Common.{
  ℕ, ◌≤◌, ◌≡◌, refl, Bool, true, false, not, List, [], ◌∷◌, arith, pos_part, ◌==◌, if◌then◌else◌,
}
use wheelta_robinhood_agent.OrderWalk.{unknown}
use wheelta_robinhood_agent.Executor.Types.{
  is_terminal, BrokerOrder, WalkStep, WalkJob, inconsistent_fill,
}
use wheelta_robinhood_agent.Executor.Session.{
  Session, State, pure, ◌>>=◌, ◌>>◌, get_step, change_step, head_step, end_if,
}
use wheelta_robinhood_agent.Executor.Triples.{
  IsSound, IsBetween, IsWorking, older_steps, Settled, Ends, Triple,
}
use wheelta_robinhood_agent.Executor.Rules.{
  Triple-bind, Triple-pure, Triple-if, Triple-end_if, Triple-weaken, Triple-strengthen, Triple-fact,
}
use wheelta_robinhood_agent.Executor.Orders.{inconsistent, count_fill, add_fill, settle, change_job}

-- The current step is the given one.
abbrev pub IsHead : WalkStep → WalkJob → Type 0
IsHead step job = job.steps ≡ step ∷ older_steps job.steps

consistent_le :
    (strict : Bool) (quantity : ℕ) (order : BrokerOrder)
    → inconsistent strict quantity order ≡ false
    → pos_part order.processed_quantity ≤ quantity
unfolding inconsistent
consistent_le strict quantity order h = ground arith

-- The books after the fills of the current step are counted.
counted-IsSound :
    (order : BrokerOrder) (step : WalkStep) (older : List WalkStep) (job : WalkJob)
    → job.steps ≡ step ∷ older
    → pos_part order.processed_quantity ≤ step.quantity
    → step.filled_quantity ≡ 0
    → IsSound job
    → IsSound (
        add_fill
          (pos_part order.processed_quantity)
          (record job { steps = count_fill order step ∷ older }))
counted-IsSound order step older job e le fresh h =
    let total = rw e at h.total in
    let fit = rw e at h.fit in
    let settled = rw e at h.settled in
    record { total = omega (arith, total, fresh); fit = (fit.0, le, fit.2); settled = settled }

already :
    {A : Type 0} (step : WalkStep)
    → not (step.filled_quantity == 0) ≡ true
    → step.filled_quantity ≡ 0
    → A
already step old fresh = absurd (ground arith)

uncounted : (step : WalkStep) → not (step.filled_quantity == 0) ≡ false → step.filled_quantity ≡ 0
uncounted step fresh = ground arith

module _ (e : Session) where
  head_step-IsHead :
      (P : WalkJob → Type 0) (s : State e.World) (steps : List WalkStep)
      → s.job.steps ≡ steps
      → P s.job
      → IsSound s.job
      → Ends (λ step j. P j × IsHead step j) (head_step steps, s)
  head_step-IsHead P s [] eq p h = h
  head_step-IsHead P s (step ∷ older) eq p h = (p, rw eq refl)

  pub get_step-IsHead :
      {P : WalkJob → Type 0}
      → ((j : WalkJob) → P j → IsSound j)
      → Triple {W = e.World} P get_step (λ step j. P j × IsHead step j)
  unfolding get_step
  get_step-IsHead {P} sound = record {
    at = λ s p. head_step-IsHead P s s.job.steps refl p (sound s.job p);
    keeps = λ s p. (refl, refl);
  }

  count-Triple :
      (order : BrokerOrder) (step : WalkStep)
      → pos_part order.processed_quantity ≤ step.quantity
      → step.filled_quantity ≡ 0
      → Triple {W = e.World}
          (λ j. IsSound j × IsHead step j)
          (change_step (count_fill order)
            >> change_job e (add_fill (pos_part order.processed_quantity)))
          (λ done j. IsSound j × (is_terminal order.status ≡ true → Settled j.steps))
  unfolding ◌>>=◌ change_job
  count-Triple order step le fresh = record {
    at = λ s p.
        let sound = counted-IsSound order step (older_steps s.job.steps) s.job p.1 le fresh p.0 in
        rw p.1 (sound, λ final. (final, p.0.settled));
    keeps = λ s p. (refl, refl);
  }

  -- The body of `settle` once the step is read.
  settle_from :
      (strict : Bool) (order : BrokerOrder) (step : WalkStep)
      → Triple {W = e.World}
          (λ j. IsSound j × IsHead step j)
          (end_if (inconsistent strict step.quantity order) unknown inconsistent_fill
            >> (if not (step.filled_quantity == 0)
                then pure tt
                else (change_step (count_fill order)
                    >> change_job e (add_fill (pos_part order.processed_quantity)))))
          (λ done j.
            IsSound j
            × (step.filled_quantity ≡ 0 → is_terminal order.status ≡ true → Settled j.steps))
  settle_from strict order step =
      Triple-end_if (inconsistent strict step.quantity order) unknown inconsistent_fill
        (λ j p. (p.0, λ x. tt))
        λ consistent.
          Triple-if (not (step.filled_quantity == 0))
            (λ old. Triple-pure tt (λ j p. (p.0, λ fresh final. already step old fresh)))
            λ fresh.
              Triple-strengthen (λ done j p. (p.0, λ zero final. p.1 final))
                (count-Triple order step (consistent_le strict step.quantity order consistent)
                  (uncounted step fresh))

  -- Over sound books, counting the fills of any reported order, strictly or not, leaves the books sound, however it ends.
  pub settle-IsSound :
      (strict : Bool) (order : BrokerOrder)
      → Triple IsSound (settle e strict order) (λ done j. IsSound j)
  unfolding settle
  settle-IsSound strict order =
      Triple-bind (get_step-IsHead (λ j h. h))
        (λ step. Triple-strengthen (λ done j p. p.0) (settle_from strict order step))

  pub settle-IsBetween :
      (strict : Bool) (order : BrokerOrder)
      → is_terminal order.status ≡ true
      → Triple IsWorking (settle e strict order) (λ done j. IsBetween j)
  unfolding settle
  settle-IsBetween strict order final = Triple-bind (get_step-IsHead (λ j h. h.sound)) (λ step.
      Triple-fact (λ j p. rw p.1 at p.0.uncounted)
        (λ fresh.
          Triple-weaken (λ j p. (p.0.sound, p.1))
            (Triple-strengthen (λ done j p. record { sound = p.0; all_settled = p.1 fresh final })
              (settle_from strict order step))))
