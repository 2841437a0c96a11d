-- ===== src/Executor/Reads/Naps.antt =====
-- The sleep of agent/order_walk.py that wakes each second (`_nap`).
use wheelta_robinhood_agent.Common.{
  ℕ, zero, suc, ◌+◌, ◌-◌, ◌*◌, ◌/◌, ◌≤◌, ◌≡◌, refl, ap, ◌∙◌, true, min, arith, ◌==◌,
}
use wheelta_robinhood_agent.Executor.Session.{Session, second}
use wheelta_robinhood_agent.Executor.Reads.{nap_loop, nap}

le_more : (k n left : ℕ) → left ≤ n * second → left ≤ (k + n) * second
le_more k n left h = omega (arith, h)

rounds_cover : (left : ℕ) → left ≤ suc (left / second) * second
rounds_cover left = grind arith

module _ (e : Session) where
  -- One more round is not used where the rounds cover the time left.
  nap_loop-suc : (n left : ℕ) → left ≤ n * second → nap_loop e (suc n) left ≡ nap_loop e n left
  unfolding nap_loop
  nap_loop-suc zero left h = let none_left : (left == 0) ≡ true = ground arith in rw none_left refl
  nap_loop-suc (suc n) left h =
      let ih = nap_loop-suc n (left - min second left) (omega (arith, h)) in rw ih refl

  nap_loop-add : (k n left : ℕ) → left ≤ n * second → nap_loop e (k + n) left ≡ nap_loop e n left
  nap_loop-add zero n left h =
      let same : 0 + n ≡ n = omega arith in ap (λ rounds. nap_loop e rounds left) same
  nap_loop-add (suc k) n left h =
      let next : suc k + n ≡ suc (k + n) = omega arith in
      ap (λ rounds. nap_loop e rounds left) next
      ∙ nap_loop-suc (k + n) left (le_more k n left h)
      ∙ nap_loop-add k n left h

  -- The rounds that `nap` is given are enough: with any more of them it does the same.
  pub nap-nap_loop : (more left : ℕ) → nap_loop e (more + suc (left / second)) left ≡ nap e left
  unfolding nap
  nap-nap_loop more left = nap_loop-add more (suc (left / second)) left (rounds_cover left)
