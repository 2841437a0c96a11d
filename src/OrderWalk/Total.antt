-- ===== src/OrderWalk/Total.antt =====
-- When `step_prices` of domain/order_walk.py plans a walk, and what the walk is.
use native.Mathlib.Nat.{mul-le-mul_right, mul-le-mul_left}
use wheelta_robinhood_agent.Common.{
  ℕ, zero, suc, ◌+◌, ◌-◌, ◌*◌, ◌≤◌, ◌<◌, ◌≡◌, refl, ◌↔◌, Bool, true, false, ◌||◌, inl, inr, Option,
  none, some, List, [], ◌∷◌, length, All, ok, arith, ◌==◌, Bool-cases, >>=-eq-ok, ok-injective,
  ◌>>=◌, if◌then◌else◌,
}
use wheelta_robinhood_agent.OrderWalk.{
  OrderSide, sell_to_open, buy_to_close, TickSchedule, is_valid, is_selling, round_to_tick, clamp,
  repeats, interpolate, step_price, step_loop, step_prices, wrong_order,
}
use wheelta_robinhood_agent.OrderWalk.Rounding.{
  IsWellFormed, round_to_tick-is_valid_self, round_to_tick-IsCeiling, round_to_tick-IsFloor,
}
use wheelta_robinhood_agent.OrderWalk.Steps.{
  Within, Advances, last_of, step_loop-IsTail, step_loop_last, clamp_start,
}

-- A walk from `start` to `worst`: valid prices, first `start`, then strictly towards `worst` and never
-- past it, at most `max_steps` of them, and the last is `worst` if there is more than one step.
pub record IsWalk (start worst max_steps : ℕ) (side : OrderSide) (t : TickSchedule) (ps : List ℕ)
    : Type 0 where
  pub rest : List ℕ
  pub from_start : ps ≡ start ∷ rest
  pub valid : All (λ p. is_valid t p ≡ true) ps
  pub within : All (Within side worst) ps
  pub advances : Advances side start rest
  pub short : length ps ≤ max_steps
  pub to_worst : 1 < max_steps → last_of start rest ≡ worst

-- What `step_prices` demands of its arguments.
pub record IsPlannable (start worst max_steps : ℕ) (side : OrderSide) (t : TickSchedule)
    : Type 0 where
  pub steps : 1 ≤ max_steps
  pub start_valid : is_valid t start ≡ true
  pub worst_valid : is_valid t worst ≡ true
  pub ordered : Within side worst start

valid_pos : (t : TickSchedule) (p : ℕ) → is_valid t p ≡ true → 0 < p
unfolding is_valid
valid_pos t p h = ground arith

ordered :
    (side : OrderSide) (start worst : ℕ)
    → wrong_order side start worst ≡ false
    → Within side worst start
unfolding wrong_order
ordered sell_to_open start worst h = ground arith
ordered buy_to_close start worst h = ground arith

not_wrong :
    (side : OrderSide) (start worst : ℕ)
    → Within side worst start
    → wrong_order side start worst ≡ false
unfolding wrong_order
not_wrong sell_to_open start worst h = ground arith
not_wrong buy_to_close start worst h = ground arith

-- The numerator of an interpolated price: a sale's is positive, a purchase's not below the start.
sale_num :
    (start worst k m : ℕ)
    → 0 < start
    → 0 < worst
    → 0 < m
    → k ≤ m
    → 0 < start * m + worst * k - start * k
sale_num start worst zero m s w p le = grind arith
sale_num start worst (suc k) m s w p le = grind (arith, mul-le-mul_left start le)

purchase_num : (start worst k m : ℕ) → start ≤ worst → start * m ≤ start * m + worst * k - start * k
purchase_num start worst k m le = omega (arith, mul-le-mul_right k le)

-- Every interpolated price of a plannable walk can be rounded.
interpolate_total :
    (t : TickSchedule) (w : IsWellFormed t) (side : OrderSide) (start worst k m : ℕ)
    → is_valid t start ≡ true
    → is_valid t worst ≡ true
    → Within side worst start
    → 0 < m
    → k ≤ m
    → (p : ℕ) × (round_to_tick (interpolate start worst k m) t side ≡ ok p)
unfolding interpolate
interpolate_total t w sell_to_open start worst k m vs vw near m_pos le =
    let pos = sale_num start worst k m (valid_pos t start vs) (valid_pos t worst vw) m_pos le in
    let (p, rounded, least) = round_to_tick-IsCeiling t w _ m_pos pos in (p, rounded)
interpolate_total t w buy_to_close start worst k m vs vw near m_pos le =
    let (p, rounded, most) =
      round_to_tick-IsFloor t w _ m_pos start vs (purchase_num start worst k m near) in
    (p, rounded)

module _ (start worst max_steps : ℕ) (side : OrderSide) (t : TickSchedule) where
  -- A plan that is made passed every check, and the list is that of the loop.
  step_prices-IsPlannable :
      (ps : List ℕ)
      → step_prices start worst max_steps side t ≡ ok ps
      → IsPlannable start worst max_steps side t
  unfolding step_prices
  step_prices-IsPlannable ps h = ground (arith, ordered side start worst)

  step_prices_checked :
      IsPlannable start worst max_steps side t
      → step_prices start worst max_steps side t ≡ (
          if max_steps == 1 || start == worst
          then ok (start ∷ [])
          else step_loop start worst max_steps side t max_steps 0 none)
  unfolding step_prices
  step_prices_checked h =
      ground (arith, h.start_valid, h.worst_valid, not_wrong side start worst h.ordered)

  -- The first step is on `start_price`.
  step_price_first :
      IsPlannable start worst max_steps side t
      → 1 < max_steps
      → step_price start worst max_steps side t 0 ≡ ok start
  unfolding step_price interpolate
  step_price_first h many =
      let e : start * (max_steps - 1) + worst * 0 - start * 0 ≡ start * (max_steps - 1) =
        omega arith in
      let n : (0 == max_steps - 1) ≡ false = ground arith in
      rw
        (
          n,
          e,
          round_to_tick-is_valid_self t side start (max_steps - 1) (omega arith) h.start_valid,
          clamp_start side start worst h.ordered,
        )
        refl

module _ (start worst : ℕ) (side : OrderSide) (t : TickSchedule) where
  -- The first round of the loop leaves the rest of it, from `start_price` on.
  loop_rest :
      (n : ℕ)
      → IsPlannable start worst (suc (suc n)) side t
      → step_loop start worst (suc (suc n)) side t (suc (suc n)) 0 none ≡ (
          step_loop start worst (suc (suc n)) side t (suc n) 1 (some start) >>= λ rest.
          ok (start ∷ rest))
  unfolding step_loop repeats
  loop_rest n h = rw (step_price_first start worst (suc (suc n)) side t h (omega arith)) refl

  loop_IsWalk :
      (n : ℕ) (ps : List ℕ)
      → IsPlannable start worst (suc (suc n)) side t
      → step_loop start worst (suc (suc n)) side t (suc (suc n)) 0 none ≡ ok ps
      → IsWalk start worst (suc (suc n)) side t ps
  loop_IsWalk n ps h looped =
      let (rest, tail, e) =
        >>=-eq-ok (step_loop start worst (suc (suc n)) side t (suc n) 1 (some start)) _
          (rw (loop_rest n h) at looped) in
      let is_tail =
        step_loop-IsTail start worst (suc (suc n)) side t h.worst_valid (suc n) 1 start rest tail in
      rw (← ok-injective e) (record {
        rest = rest;
        from_start = refl;
        valid = (h.start_valid, is_tail.valid);
        within = (h.ordered, is_tail.within);
        advances = is_tail.advances;
        short = omega (arith, is_tail.short);
        to_worst = λ many.
            step_loop_last start worst (suc (suc n)) side t h.worst_valid n 1 start rest
              (omega arith) h.ordered tail;
      })

  single_IsWalk :
      (max_steps : ℕ)
      → IsPlannable start worst max_steps side t
      → (max_steps == 1 || start == worst) ≡ true
      → IsWalk start worst max_steps side t (start ∷ [])
  single_IsWalk max_steps h one = record {
    rest = [];
    from_start = refl;
    valid = (h.start_valid, tt);
    within = (h.ordered, tt);
    advances = tt;
    short = omega (arith, h.steps);
    to_worst = λ many. ground arith;
  }

  -- Whatever the tick schedule, the prices that `step_prices` returns start at the start price, advance strictly
  -- towards the worst price and not past it, are valid on their ticks and at most max_steps, and end
  -- on the worst price where more than one step was allowed.
  pub step_prices-IsWalk :
      (max_steps : ℕ) (ps : List ℕ)
      → step_prices start worst max_steps side t ≡ ok ps
      → IsWalk start worst max_steps side t ps
  step_prices-IsWalk zero ps planned =
      absurd (omega (arith, (step_prices-IsPlannable start worst zero side t ps planned).steps))
  step_prices-IsWalk (suc zero) ps planned =
      let h = step_prices-IsPlannable start worst 1 side t ps planned in
      let run = rw (step_prices_checked start worst 1 side t h) at planned in
      rw (← ok-injective run) (single_IsWalk 1 h refl)
  step_prices-IsWalk (suc (suc n)) ps planned =
      let h = step_prices-IsPlannable start worst (suc (suc n)) side t ps planned in
      let run = rw (step_prices_checked start worst (suc (suc n)) side t h) at planned in
      elim (Bool-cases (suc (suc n) == 1 || start == worst)) [
        | inl one ↦ rw (← ok-injective (rw one at run)) (single_IsWalk (suc (suc n)) h one)
        | inr many ↦ loop_IsWalk n ps h (rw many at run)
      ]

  module _ (w : IsWellFormed t) where
    -- Each step of a plannable walk has a price.
    step_price_total :
        (max_steps k : ℕ)
        → IsPlannable start worst max_steps side t
        → k < max_steps
        → (p : ℕ) × (step_price start worst max_steps side t k ≡ ok p)
    unfolding step_price
    step_price_total max_steps k h le = elim (Bool-cases (k == max_steps - 1)) [
      | inl final ↦ rw final (clamp (is_selling side) worst worst, refl)
      | inr more ↦
          let (p, rounded) =
            interpolate_total t w side start worst k (max_steps - 1) h.start_valid h.worst_valid
              h.ordered (ground arith) (omega arith) in
          rw (more, rounded) (clamp (is_selling side) p worst, refl)
    ]

    step_loop_total :
        (max_steps n k : ℕ) (last : Option ℕ)
        → IsPlannable start worst max_steps side t
        → k + n ≡ max_steps
        → (ps : List ℕ) × (step_loop start worst max_steps side t n k last ≡ ok ps)
    unfolding step_loop
    step_loop_total max_steps zero k last h e = ([], refl)
    step_loop_total max_steps (suc n) k last h e =
        let (price, stepped) = step_price_total max_steps k h (omega arith) in
        let skip : Bool = repeats (is_selling side) last price in
        let (rest, looped) =
          step_loop_total max_steps n (k + 1) (if skip then last else some price) h (omega arith) in
        (if skip then rest else price ∷ rest, rw (stepped, looped) refl)

    -- On a well-formed schedule `step_prices` returns a list exactly when there is at least one step,
    -- both end prices are valid and `worst_price` lies on the side's side of `start_price`.
    pub step_prices_total :
        (max_steps : ℕ)
        → ((ps : List ℕ) × (step_prices start worst max_steps side t ≡ ok ps))
          ↔ IsPlannable start worst max_steps side t
    step_prices_total max_steps = (
      λ planned. step_prices-IsPlannable start worst max_steps side t planned.0 planned.1,
      λ h.
          rw (step_prices_checked start worst max_steps side t h)
            (elim (Bool-cases (max_steps == 1 || start == worst)) [
              | inl one ↦ rw one (start ∷ [], refl)
              | inr many ↦ rw many (step_loop_total max_steps max_steps 0 none h (omega arith))
            ]),
    )
