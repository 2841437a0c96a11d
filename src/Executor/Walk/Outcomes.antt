-- ===== src/Executor/Walk/Outcomes.antt =====
-- How a job ends, and what its record says then (`_run`, `_end`, `_salvage` of agent/order_walk.py).
use wheelta_robinhood_agent.Common.{
  ℕ, ◌≤◌, ◌<◌, ◌≡◌, refl, ◌∙◌, Bool, true, ◌||◌, ◌&&◌, inl, inr, Bool-cases, Option, none, some, [],
  arith, ltb, if◌then◌else◌, is_some,
}
use wheelta_robinhood_agent.OrderWalk.{
  WalkStatus, WalkTiming, working, filled, stopped, unknown, partially_filled, cancelled,
}
use wheelta_robinhood_agent.Executor.Types.{
  Identifier, PartialFill, BrokerOrder, Called, answered, WalkJob, Reason,
}
use wheelta_robinhood_agent.Executor.Session.{Session, State, Outcome, done, ended, crashed}
use wheelta_robinhood_agent.Executor.Triples.{IsSound, IsBetween, Justified, Ends, Fixed, Triple}
use wheelta_robinhood_agent.Executor.Rules.{Triple-bind, Triple-quiet, Triple-pure}
use wheelta_robinhood_agent.Executor.Changes.{change_step-IsSound}
use wheelta_robinhood_agent.Executor.Reads.Calm.{confirm-Quiet}
use wheelta_robinhood_agent.Executor.Orders.{final, latch_cancel_seconds}
use wheelta_robinhood_agent.Executor.Orders.Settling.{settle-IsSound}
use wheelta_robinhood_agent.Executor.Orders.Cancelling.{send_cancel-Quiet}
use wheelta_robinhood_agent.Executor.Walk.{
  walk, finish, leftover, salvage_found, salvage_answer, salvage_order, salvage, close, run,
  is_cancelled_status, is_unknown_status,
}
use wheelta_robinhood_agent.Executor.Walk.Books.{walk-IsBetween, sound_le}

-- A job as `start` makes it: nothing was done yet.
pub record IsFresh (job : WalkJob) : Type 0 where
  pub no_steps : job.steps ≡ []
  pub no_fills : job.filled_quantity ≡ 0

fresh-IsBetween : (job : WalkJob) → IsFresh job → IsBetween job
fresh-IsBetween job h = record {
  sound = record {
    total = rw h.no_steps h.no_fills;
    fit = rw h.no_steps tt;
    settled = rw h.no_steps tt;
  };
  all_settled = rw h.no_steps tt;
}

-- What the final status says of the fills, and of the runner's flag that no order is placed any more.
abbrev pub Truthful : WalkStatus → ℕ → ℕ → Bool → Type 0
Truthful working count target ends_placement = ⊥
Truthful filled count target ends_placement = count ≡ target
Truthful partially_filled count target ends_placement = (0 < count) × (count < target)
Truthful cancelled count target ends_placement = count ≡ 0
Truthful stopped count target ends_placement = Unit
Truthful unknown count target ends_placement = ends_placement ≡ true

-- The job has ended: its books are sound, within the request, and its status is true of them.
pub record IsEnded {W : Type 0} (before : WalkJob) (s : State W) : Type 0 where
  pub sound : IsSound s.job
  pub within : s.job.filled_quantity ≤ before.request.quantity
  pub request : s.job.request ≡ before.request
  pub truthful :
      Truthful s.job.status s.job.filled_quantity s.job.request.quantity s.placement_ended
  pub timed : is_some s.job.ended_at ≡ true
  pub done : s.job.done ≡ true

module _ (e : Session) (timing : WalkTiming) (partial_fill : PartialFill) (max_age : Option ℕ) where
  salvage_found-IsSound :
      (found : Option BrokerOrder)
      → Triple IsSound (salvage_found e timing partial_fill max_age found) (λ done j. IsSound j)
  unfolding salvage_found
  salvage_found-IsSound none = Triple-pure tt (λ j p. p)
  salvage_found-IsSound (some order) = settle-IsSound e true order

  salvage_answer-IsSound :
      (order_id : Identifier) (c : Called)
      → Triple IsSound
          (salvage_answer e timing partial_fill max_age order_id c)
          (λ done j. IsSound j)
  unfolding salvage_answer
  salvage_answer-IsSound order_id Called.refused = Triple-pure tt (λ j p. p)
  salvage_answer-IsSound order_id (answered call_id outcome) =
      Triple-bind (change_step-IsSound _ (record { quantity = λ x. refl; filled = λ x. refl }))
        λ done.
          Triple-quiet (λ j p. p) (confirm-Quiet e timing order_id latch_cancel_seconds)
            (λ found any. salvage_found-IsSound found)

  salvage_order-IsSound :
      (order_id : Option Identifier)
      → Triple IsSound (salvage_order e timing partial_fill max_age order_id) (λ done j. IsSound j)
  unfolding salvage_order
  salvage_order-IsSound none = Triple-pure tt (λ j p. p)
  salvage_order-IsSound (some order_id) =
      Triple-bind
        (change_step-IsSound (λ step. record step { cancel_sent = true })
          (record { quantity = λ x. refl; filled = λ x. refl }))
        λ done.
          Triple-quiet (λ j p. p) (send_cancel-Quiet e true order_id)
            (λ answer any. salvage_answer-IsSound order_id answer)

  Ends-IsSound :
      (r : Outcome (Unit {0}) × State e.World) → Ends (λ done j. IsSound j) r → IsSound r.1.job
  Ends-IsSound (done a, s) h = h
  Ends-IsSound (ended status reason ends_placement, s) h = h.0
  Ends-IsSound (crashed failure, s) h = h

  salvage-IsSound :
      (s : State e.World) → IsSound s.job → IsSound (salvage e timing partial_fill max_age s).job
  unfolding salvage
  salvage-IsSound s h =
      let o = leftover e timing partial_fill max_age s.job.steps in
      Ends-IsSound (salvage_order e timing partial_fill max_age o s)
        ((salvage_order-IsSound o).at s h)

  salvage-Fixed :
      (s : State e.World) → IsSound s.job → Fixed (salvage e timing partial_fill max_age s) s
  unfolding salvage
  salvage-Fixed s h =
      (salvage_order-IsSound (leftover e timing partial_fill max_age s.job.steps)).keeps s h

  finish-IsEnded :
      (before : WalkJob) (status : WalkStatus) (reason : Reason) (s : State e.World)
      → IsSound s.job
      → s.job.request ≡ before.request
      → Truthful status s.job.filled_quantity s.job.request.quantity s.placement_ended
      → IsEnded before (finish e timing partial_fill max_age status reason s)
  unfolding finish
  finish-IsEnded before status reason s h same t = record {
    sound = record { total = h.total; fit = h.fit; settled = h.settled };
    within = rw (← same) (sound_le s.job h);
    request = same;
    truthful = t;
    timed = refl;
    done = refl;
  }

  -- What `Justified` says, with what the books add to it.
  Truthful-of :
      (status : WalkStatus) (j : WalkJob) (flag ends_placement : Bool)
      → IsSound j
      → Justified status j
      → Truthful
          (if is_cancelled_status e timing partial_fill max_age status && ltb 0 j.filled_quantity
            then partially_filled
            else status)
          j.filled_quantity
          j.request.quantity
          (flag
            || (is_unknown_status e timing partial_fill max_age (
                  if is_cancelled_status e timing partial_fill max_age status
                    && ltb 0 j.filled_quantity
                  then partially_filled
                  else status)
                || ends_placement))
  Truthful-of working j flag ends_placement h t = elim t [ ]
  Truthful-of filled j flag ends_placement h t = omega (arith, t, sound_le j h)
  Truthful-of partially_filled j flag ends_placement h t = t
  Truthful-of stopped j flag ends_placement h t = tt
  Truthful-of unknown j flag ends_placement h t = ground arith
  Truthful-of cancelled j flag ends_placement h t = elim (Bool-cases (ltb 0 j.filled_quantity)) [
    | inl some_filled ↦ rw some_filled (ground arith, t)
    | inr none_filled ↦ rw none_filled (ground arith)
  ]

  final-Truthful :
      (j : WalkJob) (flag : Bool)
      → IsSound j
      → Truthful (final j) j.filled_quantity j.request.quantity flag
  unfolding final
  final-Truthful j flag h = elim (Bool-cases (ltb j.filled_quantity j.request.quantity)) [
    | inl some_left ↦ elim (Bool-cases (ltb 0 j.filled_quantity)) [
      | inl any_filled ↦ rw (some_left, any_filled) (ground arith, ground arith)
      | inr none_filled ↦ rw (some_left, none_filled) (ground arith)
    ]
    | inr full ↦ rw full (let le = sound_le j h in ground arith)
  ]

  close-IsEnded :
      (before : WalkJob) (r : Outcome (Unit {0}) × State e.World)
      → Ends (λ value j. IsBetween j) r
      → r.1.job.request ≡ before.request
      → IsEnded before (close e timing partial_fill max_age r.0 r.1).1
  unfolding close
  close-IsEnded before (done value, s) h same =
      finish-IsEnded before (final s.job) _ s h.sound same
        (final-Truthful s.job s.placement_ended h.sound)
  close-IsEnded before (ended status reason ends_placement, s) h same =
      finish-IsEnded before _ reason _ h.0 same
        (Truthful-of status s.job s.placement_ended ends_placement h.0 h.1)
  close-IsEnded before (crashed failure, s) h same =
      let s' = record s {
        placement_ended = true;
        world = if failure then e.request_stop s.world else s.world;
      } in
      finish-IsEnded before unknown _ _ (salvage-IsSound s' h) ((salvage-Fixed s' h).0 ∙ same)
        (salvage-Fixed s' h).1

  -- However the broker, the gate, the clock and the run's stop behave, a job that starts fresh ends:
  -- its total of fills is that of its steps, no step asked for more than was left of the request, the
  -- fills never exceed the request, the request is the one that was accepted, and the final status
  -- is true of the fills (filled: all of it; partially filled: some; cancelled: none; unknown:
  -- placement is over for the runner; never working). The record carries the time of the end.
  pub run-IsEnded :
      (s : State e.World) → IsFresh s.job → IsEnded s.job (run e timing partial_fill max_age s).1
  unfolding run
  run-IsEnded s fresh =
      let start = fresh-IsBetween s.job fresh in
      let walked = walk-IsBetween e timing partial_fill max_age 1 s.job.prices in
      close-IsEnded s.job (walk e timing partial_fill max_age 1 s.job.prices s) (walked.at s start)
        (walked.keeps s start).0
