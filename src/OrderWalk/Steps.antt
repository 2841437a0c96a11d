-- ===== src/OrderWalk/Steps.antt =====
-- The walk's list of prices (`step_prices` of domain/order_walk.py): its shape, and that it exists.
use wheelta_robinhood_agent.Common.{
  ℕ, zero, suc, ◌+◌, ◌-◌, ◌≤◌, ◌<◌, min, max, ◌≡◌, refl, true, false, inl, inr, some, List, [], ◌∷◌,
  length, All, ok, arith, leb, ◌==◌, Bool-cases, >>=-eq-ok, ok-injective,
}
use wheelta_robinhood_agent.OrderWalk
use wheelta_robinhood_agent.OrderWalk.{
  OrderSide, sell_to_open, buy_to_close, TickSchedule, is_valid, is_selling, round_to_tick, clamp,
  repeats, interpolate, step_price, step_loop, step_prices,
}

-- `b` lies strictly nearer to `worst_price` than `a`: lower for a sale, higher for a purchase.
abbrev pub Before : OrderSide → ℕ → ℕ → Type 0
Before sell_to_open a b = b < a
Before buy_to_close a b = a < b

-- `b` has not passed beyond `worst`.
abbrev pub Within : OrderSide → ℕ → ℕ → Type 0
Within sell_to_open worst b = worst ≤ b
Within buy_to_close worst b = b ≤ worst

-- Each price lies strictly nearer to `worst_price` than the one before it, the first than `a`.
abbrev pub Advances : OrderSide → ℕ → List ℕ → Type 0
Advances side a [] = Unit
Advances side a (x ∷ xs) = Before side a x × Advances side x xs

-- The last of `a ∷ xs`.
abbrev pub last_of : ℕ → List ℕ → ℕ
last_of a [] = a
last_of a (x ∷ xs) = last_of x xs

round_to_tick-is_valid :
    (raw : OrderWalk.Quotient) (t : TickSchedule) (side : OrderSide) (p : ℕ)
    → round_to_tick raw t side ≡ ok p
    → is_valid t p ≡ true
unfolding round_to_tick
round_to_tick-is_valid raw t side p h = ground arith

-- A clamped price is the price itself or the worst one, and never past the worst one.
clamp-is_valid :
    (t : TickSchedule) (side : OrderSide) (price worst : ℕ)
    → is_valid t price ≡ true
    → is_valid t worst ≡ true
    → (is_valid t (clamp (is_selling side) price worst) ≡ true)
      × Within side worst (clamp (is_selling side) price worst)
unfolding clamp
clamp-is_valid t sell_to_open price worst h k = elim (Bool-cases (leb worst price)) [
  | inl above ↦ let e : max price worst ≡ price = ground arith in (rw e h, omega arith)
  | inr below ↦ let e : max price worst ≡ worst = ground arith in (rw e k, omega arith)
]
clamp-is_valid t buy_to_close price worst h k = elim (Bool-cases (leb price worst)) [
  | inl below ↦ let e : min price worst ≡ price = ground arith in (rw e h, omega arith)
  | inr above ↦ let e : min price worst ≡ worst = ground arith in (rw e k, omega arith)
]

clamp_self : (side : OrderSide) (worst : ℕ) → clamp (is_selling side) worst worst ≡ worst
unfolding clamp
clamp_self sell_to_open worst = omega arith
clamp_self buy_to_close worst = omega arith

pub clamp_start :
    (side : OrderSide) (start worst : ℕ)
    → Within side worst start
    → clamp (is_selling side) start worst ≡ start
unfolding clamp
clamp_start sell_to_open start worst h = omega arith
clamp_start buy_to_close start worst h = omega arith

repeats_worst :
    (side : OrderSide) (last worst : ℕ)
    → Within side worst last
    → repeats (is_selling side) (some last) worst ≡ true
    → last ≡ worst
unfolding repeats
repeats_worst sell_to_open last worst near h = ground arith
repeats_worst buy_to_close last worst near h = ground arith

-- A price that is no repeat lies strictly nearer to `worst_price`.
repeats-Before :
    (side : OrderSide) (last price : ℕ)
    → repeats (is_selling side) (some last) price ≡ false
    → Before side last price
unfolding repeats
repeats-Before sell_to_open last price h = ground arith
repeats-Before buy_to_close last price h = ground arith

module _ (start worst max_steps : ℕ) (side : OrderSide) (t : TickSchedule) where
  -- A step's price is valid and never past `worst_price`.
  step_price-is_valid :
      is_valid t worst ≡ true
      → (k p : ℕ) → step_price start worst max_steps side t k ≡ ok p
      → (is_valid t p ≡ true) × Within side worst p
  unfolding step_price
  step_price-is_valid valid k p h = elim (Bool-cases (k == max_steps - 1)) [
    | inl final ↦
        rw (ok-injective (rw final at h)) at (clamp-is_valid t side worst worst valid valid)
    | inr more ↦
        let raw = interpolate start worst k (max_steps - 1) in
        let (price, rounded, e) = >>=-eq-ok (round_to_tick raw t side) _ (rw more at h) in
        rw (ok-injective e) at (
          clamp-is_valid t side price worst (round_to_tick-is_valid raw t side price rounded) valid)
  ]

  -- The last step is on `worst_price`.
  step_price_last :
      (k : ℕ) → suc k ≡ max_steps → step_price start worst max_steps side t k ≡ ok worst
  unfolding step_price clamp
  step_price_last k e = ground (arith, clamp_self side worst)

  -- What the loop appends to a list of prices whose last is `last`.
  pub record IsTail (n last : ℕ) (ps : List ℕ) : Type 0 where
    pub valid : All (λ p. is_valid t p ≡ true) ps
    pub within : All (Within side worst) ps
    pub advances : Advances side last ps
    pub short : length ps ≤ n

  pub step_loop-IsTail :
      is_valid t worst ≡ true
      → (n k last : ℕ) (ps : List ℕ)
      → step_loop start worst max_steps side t n k (some last) ≡ ok ps
      → IsTail n last ps
  unfolding step_loop
  step_loop-IsTail valid zero k last ps h =
      rw (← ok-injective h) (record { valid = tt; within = tt; advances = tt; short = omega arith })
  step_loop-IsTail valid (suc n) k last ps h =
      let (price, stepped, h') = >>=-eq-ok (step_price start worst max_steps side t k) _ h in
      let (ok_price, near) = step_price-is_valid valid k price stepped in
      elim (Bool-cases (repeats (is_selling side) (some last) price)) [
        | inl skip ↦
            let (rest, looped, e) =
              >>=-eq-ok (step_loop start worst max_steps side t n (k + 1) (some last)) _
                (rw skip at h') in
            let ih = step_loop-IsTail valid n (k + 1) last rest looped in
            rw (← ok-injective e) (record {
              valid = ih.valid;
              within = ih.within;
              advances = ih.advances;
              short = omega arith;
            })
        | inr take ↦
            let (rest, looped, e) =
              >>=-eq-ok (step_loop start worst max_steps side t n (k + 1) (some price)) _
                (rw take at h') in
            let ih = step_loop-IsTail valid n (k + 1) price rest looped in
            rw (← ok-injective e) (record {
              valid = (ok_price, ih.valid);
              within = (near, ih.within);
              advances = (repeats-Before side last price take, ih.advances);
              short = omega arith;
            })
      ]

  -- Run to its end, the loop stops on `worst_price`.
  pub step_loop_last :
      is_valid t worst ≡ true
      → (n k last : ℕ) (ps : List ℕ) → k + suc n ≡ max_steps
      → Within side worst last
      → step_loop start worst max_steps side t (suc n) k (some last) ≡ ok ps
      → last_of last ps ≡ worst
  unfolding step_loop
  step_loop_last valid zero k last ps e near h =
      let h' = rw (step_price_last k (omega arith)) at h in
      elim (Bool-cases (repeats (is_selling side) (some last) worst)) [
        | inl skip ↦ rw (← ok-injective (rw skip at h')) (repeats_worst side last worst near skip)
        | inr take ↦ rw (← ok-injective (rw take at h')) refl
      ]
  step_loop_last valid (suc n) k last ps e near h =
      let (price, stepped, h') = >>=-eq-ok (step_price start worst max_steps side t k) _ h in
      let (ok_price, near') = step_price-is_valid valid k price stepped in
      elim (Bool-cases (repeats (is_selling side) (some last) price)) [
        | inl skip ↦
            let (rest, looped, e') =
              >>=-eq-ok (step_loop start worst max_steps side t (suc n) (k + 1) (some last)) _
                (rw skip at h') in
            rw (← ok-injective e')
              (step_loop_last valid n (k + 1) last rest (omega arith) near looped)
        | inr take ↦
            let (rest, looped, e') =
              >>=-eq-ok (step_loop start worst max_steps side t (suc n) (k + 1) (some price)) _
                (rw take at h') in
            rw (← ok-injective e')
              (step_loop_last valid n (k + 1) price rest (omega arith) near' looped)
      ]
