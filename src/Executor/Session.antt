-- ===== src/Executor/Session.antt =====
-- What surrounds one job of agent/order_walk.py, and its task as a state monad with exceptions.
use wheelta_robinhood_agent.Common.{ℕ, Bool, true, false, Option, List, [], ◌∷◌}
use wheelta_robinhood_agent.OrderWalk.{WalkStatus}
use wheelta_robinhood_agent.Executor.Types.{
  Identifier, Call, Admission, CallOutcome, Reason, WalkStep, WalkJob,
}

-- What an awaited operation does: it returns, or it raises. `raised true` is an `Exception`,
-- `raised false` a cancellation of the task.
pub data Reply (A : Type 0) : Type 0 where
  returned : A → Reply A
  raised : Bool → Reply A

-- The lifecycle events of a job.
pub data JobEvent : Type 0 where
  step_placed step_ended : ℕ → JobEvent
  ended : JobEvent

-- Everything outside the job: the hooks' gate, the proxy and the broker behind it, the clock, the stop
-- latch and the other jobs of the runner. `World` is its state, which any operation may change, time
-- and the other tasks moving on; the operations are those of `ExecutorGate`, `ExecutorTransport`,
-- `RunControl`, the clock, `sleep`, the place lock and the event sink. Nothing is assumed of them.
pub record Session : Type 1 where
  pub World : Type 0
  pub clock : World → ℕ × World  -- microseconds
  pub stop_requested : World → Bool × World  -- halted, or the run's stop latch
  pub ended_elsewhere : World → Bool × World  -- another job has set `placement_ended`
  pub other_jobs : World → Bool × World  -- `active_jobs(exclude=job.job_id)` is not empty
  pub underlying : Identifier → World → Option Identifier × World
  pub admit : WalkJob → Call → Bool → World → Reply Admission × World
  pub transport : Identifier → Option ℕ → World → Reply CallOutcome × World
  pub sleep : ℕ → World → Reply (Unit {0}) × World
  pub acquire : World → Reply (Unit {0}) × World
  pub release : World → World
  pub record_event : JobEvent → WalkJob → World → World
  pub request_stop : World → World

abbrev pub second : ℕ
second = 1000000

-- How a part of the task ends: with a value, with `_JobEnded`, or with any other exception.
pub data Outcome (A : Type 0) : Type 0 where
  done : A → Outcome A
  ended : WalkStatus → Reason → Bool → Outcome A
  crashed : Bool → Outcome A

-- The state of the task. `calls` are the admitted calls, newest first, as the gate records them;
-- `placement_ended` is what this job has set of the runner's flag.
pub record State (W : Type 0) : Type 0 where
  pub job : WalkJob
  pub calls : List Call
  pub world : W
  pub placement_ended : Bool

abbrev pub Exec : Type 0 → Type 0 → Type 0
Exec S A = S → Outcome A × S

module _ {S A : Type 0} where
  unfoldable pub pure : A → Exec S A
  pure a s = (done a, s)

  -- `raise _JobEnded(status, reason, ends_placement=…)`
  unfoldable pub end_with : WalkStatus → Reason → Bool → Exec S A
  end_with status reason ends_placement s = (ended status reason ends_placement, s)

  abbrev pub end_job : WalkStatus → Reason → Exec S A
  end_job status reason = end_with status reason false

  unfoldable pub crash : Bool → Exec S A
  crash failure s = (crashed failure, s)

  abbrev pub of_reply : Reply A → Exec S A
  of_reply (returned a) s = (done a, s)
  of_reply (raised failure) s = (crashed failure, s)

-- `if c: raise _JobEnded(status, reason)`
unfoldable pub end_if : {S : Type 0} → Bool → WalkStatus → Reason → Exec S (Unit {0})
end_if true status reason s = (ended status reason false, s)
end_if false status reason s = (done tt, s)

module _ {W : Type 0} where
  unfoldable pub get_job : Exec (State W) WalkJob
  get_job s = (done s.job, s)

  unfoldable pub set_job : WalkJob → Exec (State W) (Unit {0})
  set_job job s = (done tt, record s { job = job })

  -- An operation of the surroundings that cannot raise, and one that can.
  unfoldable pub outside : {A : Type 0} → (W → A × W) → Exec (State W) A
  outside op s = let (a, w) = op s.world in (done a, record s { world = w })

  unfoldable pub await : {A : Type 0} → (W → Reply A × W) → Exec (State W) A
  await op s = let (r, w) = op s.world in of_reply r (record s { world = w })

  -- The gate records an admitted call.
  unfoldable pub record_call : Call → Exec (State W) (Unit {0})
  record_call c s = (done tt, record s { calls = c ∷ s.calls })

  -- Whether this job has set the runner's `placement_ended`.
  unfoldable pub has_ended_placement : Exec (State W) Bool
  has_ended_placement s = (done s.placement_ended, s)

-- A change of the current step, the last of the job's.
abbrev pub change_head : (WalkStep → WalkStep) → List WalkStep → List WalkStep
change_head f [] = []
change_head f (step ∷ older) = f step ∷ older

unfoldable pub change_step : {W : Type 0} → (WalkStep → WalkStep) → Exec (State W) (Unit {0})
change_step f s = (done tt, record s { job = record s.job { steps = change_head f s.job.steps } })

-- The current step. Where the source holds a step, the job has one.
abbrev pub head_step : List WalkStep → Outcome WalkStep
head_step [] = crashed true
head_step (step ∷ older) = done step

unfoldable pub get_step : {W : Type 0} → Exec (State W) WalkStep
get_step s = (head_step s.job.steps, s)

module _ {S A B : Type 0} where
  abbrev pub then_run : Outcome A → (A → Exec S B) → Exec S B
  then_run (done a) f s = f a s
  then_run (ended status reason ends_placement) f s = (ended status reason ends_placement, s)
  then_run (crashed failure) f s = (crashed failure, s)

  infixl 5 ◌>>=◌ ◌>>◌
  -- Opening this opens the steps above too.
  unfoldable pub ◌>>=◌ : Exec S A → (A → Exec S B) → Exec S B
  unfolding pure end_with crash end_if get_job set_job outside await record_call has_ended_placement
      change_step get_step
  ◌>>=◌ m f s = let (r, s') = m s in then_run r f s'

  abbrev pub ◌>>◌ : Exec S A → Exec S B → Exec S B
  m >> k = m >>= λ _. k
