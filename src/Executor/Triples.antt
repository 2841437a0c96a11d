-- ===== src/Executor/Triples.antt =====
-- Assertions on a job of agent/order_walk.py, and triples over the parts of its task.
use wheelta_robinhood_agent.Common.{ℕ, ◌+◌, ◌≤◌, ◌<◌, ◌≡◌, true, List, [], ◌∷◌}
use wheelta_robinhood_agent.OrderWalk.{
  WalkStatus, working, filled, partially_filled, cancelled, stopped, unknown,
}
use wheelta_robinhood_agent.Executor.Types.{WalkStep, WalkJob, is_terminal_status}
use wheelta_robinhood_agent.Executor.Session.{State, Exec, Outcome, done, ended, crashed}

-- The contracts that the steps have counted as filled.
abbrev pub counted : List WalkStep → ℕ
counted [] = 0
counted (step ∷ older) = step.filled_quantity + counted older

-- No step asks for more than its predecessors left of the target, nor counts more than it asked for.
abbrev pub StepsFit : ℕ → List WalkStep → Type 0
StepsFit target [] = Unit
StepsFit target (step ∷ older) =
    (step.quantity + counted older ≤ target)
    × (step.filled_quantity ≤ step.quantity)
    × StepsFit target older

-- The order of every step was seen in a terminal state.
abbrev pub Settled : List WalkStep → Type 0
Settled [] = Unit
Settled (step ∷ older) = (is_terminal_status step.order_status ≡ true) × Settled older

abbrev pub older_steps : List WalkStep → List WalkStep
older_steps [] = []
older_steps (step ∷ older) = older

-- The books of a job: its fills are those of its steps, which fit the request, and every step before
-- the current one is settled.
pub record IsSound (job : WalkJob) : Type 0 where
  pub total : job.filled_quantity ≡ counted job.steps
  pub fit : StepsFit job.request.quantity job.steps
  pub settled : Settled (older_steps job.steps)

-- Between two rounds the current step is settled too.
pub record IsBetween (job : WalkJob) : Type 0 where
  pub sound : IsSound job
  pub all_settled : Settled job.steps

abbrev pub HeadUncounted : List WalkStep → Type 0
HeadUncounted [] = ⊥
HeadUncounted (step ∷ older) = step.filled_quantity ≡ 0

-- While a step works, its fills are not counted yet.
pub record IsWorking (job : WalkJob) : Type 0 where
  pub sound : IsSound job
  pub uncounted : HeadUncounted job.steps

-- What the status with which a walk ends says of the fills.
abbrev pub Justified : WalkStatus → WalkJob → Type 0
Justified working job = ⊥
Justified filled job = job.request.quantity ≤ job.filled_quantity
Justified partially_filled job =
    (0 < job.filled_quantity) × (job.filled_quantity < job.request.quantity)
Justified cancelled job = job.filled_quantity < job.request.quantity
Justified stopped job = Unit
Justified unknown job = Unit

abbrev pub Ends : {W A : Type 0} → (A → WalkJob → Type 0) → Outcome A × State W → Type 0
Ends Q (done a, s) = Q a s.job
Ends Q (ended status reason ends_placement, s) = IsSound s.job × Justified status s.job
Ends Q (crashed failure, s) = IsSound s.job

-- What no part of the task changes: the request, and the runner's flag, which `_run` alone sets.
abbrev pub Fixed : {W : Type 0} → State W → State W → Type 0
Fixed after before =
    (after.job.request ≡ before.job.request) × (after.placement_ended ≡ before.placement_ended)

-- From a job with P the part ends with Q, or with an exception over sound books.
pub record Triple {W A : Type 0} (P : WalkJob → Type 0) (m : Exec (State W) A)
    (Q : A → WalkJob → Type 0) : Type 0 where
  pub at : (s : State W) → P s.job → Ends Q (m s)
  pub keeps : (s : State W) → P s.job → Fixed (m s).1 s
