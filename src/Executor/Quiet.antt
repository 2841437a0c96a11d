-- ===== src/Executor/Quiet.antt =====
-- The parts of a job's task in agent/order_walk.py that leave the job as it is.
use wheelta_robinhood_agent.Common.{◌≡◌, refl, ap, ◌∙◌, Bool, true, false, if◌then◌else◌}
use wheelta_robinhood_agent.OrderWalk.{stopped, unknown}
use wheelta_robinhood_agent.Executor.Types.{Call, WalkJob, Reason}
use wheelta_robinhood_agent.Executor.Session.{
  State, Exec, Reply, returned, raised, Outcome, done, ended, crashed, pure, end_with, end_job,
  end_if, has_ended_placement, then_run, of_reply, ◌>>=◌, get_job, outside, await, record_call,
}
use wheelta_robinhood_agent.Executor.Triples.{IsSound, Justified, Ends, Triple}

abbrev pub Any : {A : Type 0} → A → Type 0
Any a = Unit

abbrev pub QuietEnds : {W A : Type 0} → (A → Type 0) → WalkJob → Outcome A × State W → Type 0
QuietEnds R job (done a, s) = (s.job ≡ job) × R a
QuietEnds R job (ended status reason ends_placement, s) =
    (s.job ≡ job) × ((other : WalkJob) → Justified status other)
QuietEnds R job (crashed failure, s) = s.job ≡ job

-- The job is left alone, a value satisfies R, and the job is only ended as stopped or unknown.
pub record Quiet {W A : Type 0} (R : A → Type 0) (m : Exec (State W) A) : Type 0 where
  pub at : (s : State W) → QuietEnds R s.job (m s)
  pub flag : (s : State W) → (m s).1.placement_ended ≡ s.placement_ended

module _ {W A : Type 0} {R : A → Type 0} where
  pub Quiet-pure : (a : A) → R a → Quiet {W = W} R (pure a)
  unfolding pure
  Quiet-pure a h = record { at = λ s. (refl, h); flag = λ s. refl }

  pub Quiet-stopped : (reason : Reason) → Quiet {W = W} R (end_job stopped reason)
  unfolding end_with
  Quiet-stopped reason = record { at = λ s. (refl, λ other. tt); flag = λ s. refl }

  pub Quiet-unknown : (reason : Reason) → Quiet {W = W} R (end_job unknown reason)
  unfolding end_with
  Quiet-unknown reason = record { at = λ s. (refl, λ other. tt); flag = λ s. refl }

  pub Quiet-if :
      (b : Bool) {x y : Exec (State W) A} → Quiet R x → Quiet R y → Quiet R (if b then x else y)
  Quiet-if true h k = h
  Quiet-if false h k = k

module _ {W A : Type 0} where
  pub Quiet-outside : (op : W → A × W) → Quiet {W = W} Any (outside op)
  unfolding outside
  Quiet-outside op = record { at = λ s. (refl, tt); flag = λ s. refl }

  of_reply_Quiet :
      (job : WalkJob) (r : Reply A) (s : State W) → s.job ≡ job → QuietEnds Any job (of_reply r s)
  of_reply_Quiet job (returned a) s e = (e, tt)
  of_reply_Quiet job (raised failure) s e = e

  of_reply_flag : (r : Reply A) (s : State W) → (of_reply r s).1.placement_ended ≡ s.placement_ended
  of_reply_flag (returned a) s = refl
  of_reply_flag (raised failure) s = refl

  pub Quiet-await : (op : W → Reply A × W) → Quiet {W = W} Any (await op)
  unfolding await
  Quiet-await op = record {
    at = λ s. let (r, w) = op s.world in of_reply_Quiet s.job r (record s { world = w }) refl;
    flag = λ s. let (r, w) = op s.world in of_reply_flag r (record s { world = w });
  }

module _ {W : Type 0} where
  pub Quiet-record_call : (c : Call) → Quiet {W = W} Any (record_call c)
  unfolding record_call
  Quiet-record_call c = record { at = λ s. (refl, tt); flag = λ s. refl }

  pub Quiet-get_job : Quiet {W = W} Any get_job
  unfolding get_job
  Quiet-get_job = record { at = λ s. (refl, tt); flag = λ s. refl }

  pub Quiet-end_if : (b : Bool) (reason : Reason) → Quiet {W = W} Any (end_if b stopped reason)
  unfolding end_if
  Quiet-end_if true reason = record { at = λ s. (refl, λ other. tt); flag = λ s. refl }
  Quiet-end_if false reason = record { at = λ s. (refl, tt); flag = λ s. refl }

  pub Quiet-has_ended : Quiet {W = W} Any has_ended_placement
  unfolding has_ended_placement
  Quiet-has_ended = record { at = λ s. (refl, tt); flag = λ s. refl }

module _ {W A B : Type 0} {R : A → Type 0} {T : B → Type 0} where
  QuietEnds-then :
      (f : A → Exec (State W) B) (job : WalkJob) (r : Outcome A × State W)
      → ((a : A) → R a → Quiet T (f a))
      → QuietEnds R job r
      → QuietEnds T job (then_run r.0 f r.1)
  QuietEnds-then f job (done a, s) next h = rw (← h.0) ((next a h.1).at s)
  QuietEnds-then f job (ended status reason ends_placement, s) next h = h
  QuietEnds-then f job (crashed failure, s) next h = h

  then-flag :
      (f : A → Exec (State W) B) (job : WalkJob) (r : Outcome A × State W)
      → ((a : A) → R a → Quiet T (f a))
      → QuietEnds R job r
      → (then_run r.0 f r.1).1.placement_ended ≡ r.1.placement_ended
  then-flag f job (done a, s) next h = (next a h.1).flag s
  then-flag f job (ended status reason ends_placement, s) next h = refl
  then-flag f job (crashed failure, s) next h = refl

  pub Quiet-bind :
      {m : Exec (State W) A} {f : A → Exec (State W) B}
      → Quiet R m
      → ((a : A) → R a → Quiet T (f a))
      → Quiet T (m >>= f)
  unfolding ◌>>=◌
  Quiet-bind {m} {f} h next = record {
    at = λ s. QuietEnds-then f s.job (m s) next (h.at s);
    flag = λ s. then-flag f s.job (m s) next (h.at s) ∙ h.flag s;
  }

module _ {W A B : Type 0} {T : B → Type 0} where
  -- As `search` applies it: nothing is asked of the value.
  pub Quiet-then :
      {m : Exec (State W) A} {f : A → Exec (State W) B}
      → Quiet Any m
      → ((a : A) → Quiet T (f a))
      → Quiet T (m >>= f)
  Quiet-then h next = Quiet-bind h (λ a any. next a)

module _ {W A : Type 0} (P : WalkJob → Type 0) (R : A → Type 0) where
  Ends-of_Quiet :
      (job : WalkJob) (r : Outcome A × State W)
      → ((j : WalkJob) → P j → IsSound j)
      → P job
      → QuietEnds R job r
      → Ends (λ a j. P j × R a) r
  Ends-of_Quiet job (done a, s) sound p h = (rw h.0 p, h.1)
  Ends-of_Quiet job (ended status reason ends_placement, s) sound p h =
      (rw h.0 (sound job p), h.1 s.job)
  Ends-of_Quiet job (crashed failure, s) sound p h = rw h (sound job p)

QuietEnds-request :
    {W A : Type 0} (R : A → Type 0) (job : WalkJob) (r : Outcome A × State W)
    → QuietEnds R job r
    → r.1.job.request ≡ job.request
QuietEnds-request R job (done a, s) h = ap (λ j. j.request) h.0
QuietEnds-request R job (ended status reason ends_placement, s) h = ap (λ j. j.request) h.0
QuietEnds-request R job (crashed failure, s) h = ap (λ j. j.request) h

module _ {W A : Type 0} {P : WalkJob → Type 0} {R : A → Type 0} where
  -- A quiet part keeps every assertion that holds of sound books.
  pub Quiet-Triple :
      {m : Exec (State W) A}
      → ((j : WalkJob) → P j → IsSound j)
      → Quiet R m
      → Triple P m (λ a j. P j × R a)
  Quiet-Triple {m} sound h = record {
    at = λ s p. Ends-of_Quiet P R s.job (m s) sound p (h.at s);
    keeps = λ s p. (QuietEnds-request R s.job (m s) (h.at s), h.flag s);
  }

pub ruleset quiet_rules = (
  Quiet-pure, Quiet-stopped, Quiet-unknown, Quiet-if, Quiet-outside, Quiet-await, Quiet-record_call,
  Quiet-get_job, Quiet-end_if, Quiet-has_ended, Quiet-then,
)
