-- ===== src/OrderWalk.antt =====
-- domain/order_walk.py: the schedule of a code-run order walk, which is the list of limit prices from
-- `start_price` to `worst_price`.
--
-- A `Decimal` price is a natural number of some fixed unit that every price, tick and quote of a
-- contract is a multiple of; a price below zero fails `is_valid` as zero does, so it is left out. The
-- quotient that `step_prices` interpolates need not be on that grid: it is kept exactly, as a fraction.
pub mod Rounding
pub mod Steps
pub mod Total
mod Tests
use wheelta_robinhood_agent.Common.{
  ℕ, zero, suc, ◌+◌, ◌-◌, ◌*◌, ◌/◌, ◌%◌, min, max, Bool, true, false, not, ◌&&◌, ◌||◌, Option, none,
  some, List, [], ◌∷◌, Result, ok, err, value_error, ◌>>=◌, ◌>>◌, raise_if, ltb, leb, ◌==◌,
  if◌then◌else◌,
}

pub data OrderSide : Type 0 where
  sell_to_open buy_to_close : OrderSide

pub data WalkStatus : Type 0 where
  working filled partially_filled cancelled stopped unknown : WalkStatus

-- A fraction of two naturals.
pub record Quotient : Type 0 where
  pub num : ℕ
  pub den : ℕ

abbrev pub whole : ℕ → Quotient
whole p = record { num = p; den = 1 }

pub record TickSchedule : Type 0 where
  pub above_tick : ℕ
  pub below_tick : ℕ
  pub cutoff_price : ℕ

unfoldable pub tick_at : TickSchedule → Quotient → ℕ
tick_at t price = if leb (t.cutoff_price * price.den) price.num then t.above_tick else t.below_tick

unfoldable pub is_valid : TickSchedule → ℕ → Bool
unfolding tick_at
is_valid t price = ltb 0 price && price % tick_at t (whole price) == 0

-- `(price / tick).to_integral_value(ROUND_FLOOR)` and the same with `ROUND_CEILING`.
abbrev pub floor_div : ℕ → ℕ → ℕ
floor_div a b = a / b

abbrev pub ceil_div : ℕ → ℕ → ℕ
ceil_div a b = (a + (b - 1)) / b

-- `_round`
unfoldable pub round : Quotient → ℕ → Bool → ℕ
round price tick up =
    (if up then ceil_div price.num (price.den * tick) else floor_div price.num (price.den * tick))
    * tick

abbrev pub is_selling : OrderSide → Bool
is_selling sell_to_open = true
is_selling buy_to_close = false

unfoldable pub round_to_tick : Quotient → TickSchedule → OrderSide → Result ℕ
unfolding round is_valid tick_at
round_to_tick price ticks side =
    let up = is_selling side in
    let first = round price (tick_at ticks price) up in
    let rounded =
      if is_valid ticks first then first else round price (tick_at ticks (whole first)) up in
    if is_valid ticks rounded then ok rounded else err value_error

pub record WalkTiming : Type 0 where
  pub window_seconds : ℕ
  pub max_steps : ℕ
  pub step_wait_seconds : ℕ
  pub poll_seconds : ℕ
  pub step_overhead_seconds : ℕ

-- What the model validator of `WalkTiming` demands: the four counts are positive, and `_fits`.
unfoldable pub fits : WalkTiming → Bool
fits t =
    (ltb 0 t.window_seconds
      && ltb 0 t.max_steps
      && ltb 0 t.step_wait_seconds
      && ltb 0 t.poll_seconds)
    && leb t.poll_seconds t.step_wait_seconds
    && leb (t.max_steps * (t.step_wait_seconds + t.step_overhead_seconds)) t.window_seconds

-- start + (worst - start) * k / m over the common denominator m. As k ≤ m, the subtraction is exact.
unfoldable pub interpolate : ℕ → ℕ → ℕ → ℕ → Quotient
interpolate start worst k m = record { num = start * m + worst * k - start * k; den = m }

-- `price >= prices[-1]` for a sale and `price <= prices[-1]` for a purchase: no step forward.
unfoldable pub repeats : Bool → Option ℕ → ℕ → Bool
repeats selling none price = false
repeats selling (some last) price = if selling then leb last price else leb price last

-- `max(price, worst_price) if selling else min(price, worst_price)`: never past `worst_price`.
unfoldable pub clamp : Bool → ℕ → ℕ → ℕ
clamp selling price worst = if selling then max price worst else min price worst

-- Whether `worst_price` lies on the wrong side of `start_price`.
unfoldable pub wrong_order : OrderSide → ℕ → ℕ → Bool
wrong_order sell_to_open start worst = ltb start worst
wrong_order buy_to_close start worst = ltb worst start

module _ (start worst max_steps : ℕ) (side : OrderSide) (ticks : TickSchedule) where
  -- The price of step k, before the test that drops a repeat.
  unfoldable pub step_price : ℕ → Result ℕ
  unfolding interpolate clamp
  step_price k = do
    price ←
        if k == max_steps - 1
        then ok worst
        else round_to_tick (interpolate start worst k (max_steps - 1)) ticks side
    ok (clamp (is_selling side) price worst)

  -- The loop `for k in range(max_steps)` from step k on, with n steps left and `last` for the last
  -- element of `prices`; it returns what the rest of the loop appends.
  unfoldable pub step_loop : ℕ → ℕ → Option ℕ → Result (List ℕ)
  unfolding repeats
  step_loop zero k last = ok []
  step_loop (suc n) k last = do
    price ← step_price k
    let skip = repeats (is_selling side) last price
    rest ← step_loop n (k + 1) (if skip then last else some price)
    ok (if skip then rest else price ∷ rest)

  unfoldable pub step_prices : Result (List ℕ)
  unfolding step_loop
  step_prices = do
    raise_if (ltb max_steps 1) value_error
    raise_if (not (is_valid ticks start)) value_error
    raise_if (not (is_valid ticks worst)) value_error
    raise_if (wrong_order side start worst) value_error
    if max_steps == 1 || start == worst then ok (start ∷ []) else step_loop max_steps 0 none

-- `orders.limit_price_bounds`
unfoldable pub within_bounds : ℕ → ℕ → ℕ → Bool
within_bounds price bid ask = leb bid price && leb price ask

-- `max(target - filled, 0)`: the subtraction of naturals stops at 0 by itself.
unfoldable pub remaining_quantity : ℕ → ℕ → ℕ
remaining_quantity target done = target - done

-- The budget and the wind-down are `float` seconds in the source; here they are whole numbers of some
-- unit of time, and the window is in the same unit.
unfoldable pub can_start : ℕ → ℕ → ℕ → Bool
can_start remaining_budget window wind_down = leb (window + wind_down) remaining_budget
