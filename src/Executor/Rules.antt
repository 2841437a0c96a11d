-- ===== src/Executor/Rules.antt =====
-- The rules by which triples over the parts of a job's task (agent/order_walk.py) are put together.
use wheelta_robinhood_agent.Common.{◌≡◌, refl, ◌∙◌, Bool, true, false, if◌then◌else◌}
use wheelta_robinhood_agent.OrderWalk.{WalkStatus}
use wheelta_robinhood_agent.Executor.Types.{WalkJob, Reason}
use wheelta_robinhood_agent.Executor.Session.{
  State, Exec, Outcome, done, ended, crashed, pure, end_with, end_if, then_run, ◌>>=◌, ◌>>◌,
  get_job,
}
use wheelta_robinhood_agent.Executor.Triples.{IsSound, Justified, Ends, Fixed, Triple}
use wheelta_robinhood_agent.Executor.Quiet.{Quiet, Quiet-Triple}

module _ {W A B : Type 0} {Q : A → WalkJob → Type 0} {T : B → WalkJob → Type 0} where
  Ends-then :
      (f : A → Exec (State W) B) (r : Outcome A × State W)
      → ((a : A) → Triple (Q a) (f a) T)
      → Ends Q r
      → Ends T (then_run r.0 f r.1)
  Ends-then f (done a, s) next h = (next a).at s h
  Ends-then f (ended status reason ends_placement, s) next h = h
  Ends-then f (crashed failure, s) next h = h

  then-Fixed :
      (f : A → Exec (State W) B) (r : Outcome A × State W)
      → ((a : A) → Triple (Q a) (f a) T)
      → Ends Q r
      → Fixed (then_run r.0 f r.1).1 r.1
  then-Fixed f (done a, s) next h = (next a).keeps s h
  then-Fixed f (ended status reason ends_placement, s) next h = (refl, refl)
  then-Fixed f (crashed failure, s) next h = (refl, refl)

module _ {W A B : Type 0} {P : WalkJob → Type 0} {Q : A → WalkJob → Type 0}
    {T : B → WalkJob → Type 0} where
  pub Triple-bind :
      {m : Exec (State W) A} {f : A → Exec (State W) B}
      → Triple P m Q
      → ((a : A) → Triple (Q a) (f a) T)
      → Triple P (m >>= f) T
  unfolding ◌>>=◌
  Triple-bind {m} {f} h next = record {
    at = λ s p. Ends-then f (m s) next (h.at s p);
    keeps = λ s p.
        let later = then-Fixed f (m s) next (h.at s p) in
        let first = h.keeps s p in (later.0 ∙ first.0, later.1 ∙ first.1);
  }

module _ {W A B : Type 0} {P : WalkJob → Type 0} {R : A → Type 0} {T : B → WalkJob → Type 0}
    (sound : (j : WalkJob) → P j → IsSound j) where
  -- A quiet part first: the assertion stays.
  pub Triple-quiet :
      {m : Exec (State W) A} {f : A → Exec (State W) B}
      → Quiet R m
      → ((a : A) → R a → Triple P (f a) T)
      → Triple P (m >>= f) T
  Triple-quiet h next =
      Triple-bind (Quiet-Triple sound h)
        (λ a. record { at = λ s p. (next a p.1).at s p.0; keeps = λ s p. (next a p.1).keeps s p.0 })

module _ {W A : Type 0} {P : WalkJob → Type 0} {Q : A → WalkJob → Type 0} where
  pub Triple-pure : (a : A) → ((j : WalkJob) → P j → Q a j) → Triple {W = W} P (pure a) Q
  unfolding pure
  Triple-pure a h = record { at = λ s p. h s.job p; keeps = λ s p. (refl, refl) }

  pub Triple-end :
      (status : WalkStatus) (reason : Reason) (ends_placement : Bool)
      → ((j : WalkJob) → P j → IsSound j × Justified status j)
      → Triple {W = W} P (end_with status reason ends_placement) Q
  unfolding end_with
  Triple-end status reason ends_placement h = record {
    at = λ s p. h s.job p;
    keeps = λ s p. (refl, refl);
  }

  pub Triple-if :
      (b : Bool) {x y : Exec (State W) A}
      → (b ≡ true → Triple P x Q)
      → (b ≡ false → Triple P y Q)
      → Triple P (if b then x else y) Q
  Triple-if true h k = h refl
  Triple-if false h k = k refl

  pub Triple-weaken :
      {P' : WalkJob → Type 0} {m : Exec (State W) A}
      → ((j : WalkJob) → P' j → P j)
      → Triple P m Q
      → Triple P' m Q
  Triple-weaken weaker h = record {
    at = λ s p. h.at s (weaker s.job p);
    keeps = λ s p. h.keeps s (weaker s.job p);
  }

module _ {W A : Type 0} {Q T : A → WalkJob → Type 0} where
  Ends-strengthen :
      (r : Outcome A × State W) → ((a : A) (j : WalkJob) → Q a j → T a j) → Ends Q r → Ends T r
  Ends-strengthen (done a, s) h p = h a s.job p
  Ends-strengthen (ended status reason ends_placement, s) h p = p
  Ends-strengthen (crashed failure, s) h p = p

module _ {W A : Type 0} {P : WalkJob → Type 0} {Q T : A → WalkJob → Type 0} where
  -- A weaker conclusion.
  pub Triple-strengthen :
      {m : Exec (State W) A} → ((a : A) (j : WalkJob) → Q a j → T a j) → Triple P m Q → Triple P m T
  Triple-strengthen {m} h t = record {
    at = λ s p. Ends-strengthen (m s) h (t.at s p);
    keeps = t.keeps;
  }

module _ {W A : Type 0} {P : WalkJob → Type 0} {Q : A → WalkJob → Type 0} where
  -- What the assertion says without the job may be used for the triple.
  pub Triple-fact :
      {F : Type 0} {m : Exec (State W) A}
      → ((j : WalkJob) → P j → F)
      → (F → Triple P m Q)
      → Triple P m Q
  Triple-fact fact next = record {
    at = λ s p. (next (fact s.job p)).at s p;
    keeps = λ s p. (next (fact s.job p)).keeps s p;
  }

module _ {W A : Type 0} {P : WalkJob → Type 0} {Q : A → WalkJob → Type 0} where
  -- A test that ends the job, and what follows when it does not.
  pub Triple-end_if :
      (b : Bool) (status : WalkStatus) (reason : Reason) {m : Exec (State W) A}
      → ((j : WalkJob) → P j → IsSound j × (b ≡ true → Justified status j))
      → (b ≡ false → Triple P m Q)
      → Triple P (end_if b status reason >> m) Q
  unfolding ◌>>=◌
  Triple-end_if true status reason h next = record {
    at = λ s p. ((h s.job p).0, (h s.job p).1 refl);
    keeps = λ s p. (refl, refl);
  }
  Triple-end_if false status reason h next = record {
    at = λ s p. (next refl).at s p;
    keeps = λ s p. (next refl).keeps s p;
  }

  pub Triple-get_job :
      {f : WalkJob → Exec (State W) A}
      → ((job : WalkJob) → Triple (λ j. P j × (j ≡ job)) (f job) Q)
      → Triple P (get_job >>= f) Q
  unfolding ◌>>=◌
  Triple-get_job next = record {
    at = λ s p. (next s.job).at s (p, refl);
    keeps = λ s p. (next s.job).keeps s (p, refl);
  }
