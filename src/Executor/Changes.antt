-- ===== src/Executor/Changes.antt =====
-- Changes of the current step of a job (agent/order_walk.py) that leave its books as they are.
use wheelta_robinhood_agent.Common.{ℕ, ◌≡◌, refl, List, [], ◌∷◌}
use wheelta_robinhood_agent.Executor.Types.{WalkStep, WalkJob}
use wheelta_robinhood_agent.Executor.Session.{change_step, change_head}
use wheelta_robinhood_agent.Executor.Triples.{
  IsSound, IsWorking, HeadUncounted, older_steps, counted, StepsFit, Triple,
}

-- A change of a step that leaves its quantity and its count.
pub record KeepsBooks (f : WalkStep → WalkStep) : Type 0 where
  pub quantity : (step : WalkStep) → (f step).quantity ≡ step.quantity
  pub filled : (step : WalkStep) → (f step).filled_quantity ≡ step.filled_quantity

module _ (f : WalkStep → WalkStep) (k : KeepsBooks f) where
  change_counted : (steps : List WalkStep) → counted (change_head f steps) ≡ counted steps
  change_counted [] = refl
  change_counted (step ∷ older) = rw (k.filled step)

  change_fit :
      (target : ℕ) (steps : List WalkStep)
      → StepsFit target steps
      → StepsFit target (change_head f steps)
  change_fit target [] h = h
  change_fit target (step ∷ older) h = rw (k.filled step, k.quantity step) h

  change_older : (steps : List WalkStep) → older_steps (change_head f steps) ≡ older_steps steps
  change_older [] = refl
  change_older (step ∷ older) = refl

  change_uncounted :
      (steps : List WalkStep) → HeadUncounted steps → HeadUncounted (change_head f steps)
  change_uncounted [] h = h
  change_uncounted (step ∷ older) h = rw (k.filled step) h

  change-IsSound :
      (job : WalkJob) → IsSound job → IsSound (record job { steps = change_head f job.steps })
  change-IsSound job h = record {
    total = rw (change_counted job.steps) h.total;
    fit = change_fit job.request.quantity job.steps h.fit;
    settled = rw (change_older job.steps) h.settled;
  }

  pub change_step-IsSound :
      {W : Type 0} → Triple {W = W} IsSound (change_step f) (λ done j. IsSound j)
  unfolding change_step
  change_step-IsSound = record { at = λ s h. change-IsSound s.job h; keeps = λ s h. (refl, refl) }

  pub change_step-IsWorking :
      {W : Type 0} → Triple {W = W} IsWorking (change_step f) (λ done j. IsWorking j)
  unfolding change_step
  change_step-IsWorking = record {
    at = λ s h. record {
      sound = change-IsSound s.job h.sound;
      uncounted = change_uncounted s.job.steps h.uncounted;
    };
    keeps = λ s h. (refl, refl);
  }
