-- ===== src/OrderWalk/Rounding.antt =====
-- Rounding in the trader's favour (`round_to_tick` of domain/order_walk.py) against the valid prices
-- on either side of the price that is rounded.
use native.Mathlib.Nat.{
  mul-mod_left, dvd_trans, dvd_of_mod-eq-zero, mod-eq-zero_of_dvd, mul-le-mul_right, le_trans,
  le_of_mul-le-mul_right, lt_of_mul-lt-mul_right,
}
use wheelta_robinhood_agent.Common.{
  ℕ, zero, suc, ◌*◌, ◌/◌, ◌%◌, ◌≤◌, ◌<◌, ◌≡◌, refl, ap, Bool, true, false, inl, inr, ok, arith, leb,
  leb→le, leb-false→lt, Bool-cases,
}
use wheelta_robinhood_agent.OrderWalk.{
  OrderSide, is_selling, sell_to_open, buy_to_close, Quotient, TickSchedule, whole, tick_at,
  is_valid, ceil_div, floor_div, round, round_to_tick,
}

ceil_div_ge : (n b : ℕ) → 0 < b → n ≤ ceil_div n b * b
ceil_div_ge n b h = grind arith

ceil_div_least : (n b q : ℕ) → 0 < b → n ≤ q * b → ceil_div n b ≤ q
ceil_div_least n b q h k = grind arith

floor_div_le : (n b : ℕ) → floor_div n b * b ≤ n
floor_div_le n b = grind arith

floor_div_greatest : (n b q : ℕ) → 0 < b → q * b ≤ n → q ≤ floor_div n b
floor_div_greatest n b q h k = grind arith

multiple_of_mod : (p t : ℕ) → p % t ≡ 0 → p ≡ p / t * t
multiple_of_mod p t h = grind arith

mod_trans : (c a b : ℕ) → c % a ≡ 0 → a % b ≡ 0 → c % b ≡ 0
mod_trans c a b h k =
    mod-eq-zero_of_dvd b (dvd_trans b (dvd_of_mod-eq-zero b k) (dvd_of_mod-eq-zero a h))

-- Comparing two grid prices with the same fraction n / d.
le_through : (p q n d : ℕ) → 0 < d → p * d ≤ n → n ≤ q * d → p ≤ q
le_through p q n d h a b = le_of_mul-le-mul_right (le_trans a b) h

lt_through : (p q n d : ℕ) → p * d ≤ n → n < q * d → p < q
lt_through p q n d a b = lt_of_mul-lt-mul_right d (omega arith)

pos_through : (p n d : ℕ) → 0 < n → n ≤ p * d → 0 < p
pos_through zero n d h a = omega arith
pos_through (suc p) n d h a = omega arith

abbrev up : ℕ → ℕ → ℕ → ℕ
up n d t = ceil_div n (d * t) * t

abbrev down : ℕ → ℕ → ℕ → ℕ
down n d t = floor_div n (d * t) * t

module _ (n d t : ℕ) (d_pos : 0 < d) (t_pos : 0 < t) where
  dt_pos : 0 < d * t
  dt_pos = grind arith

  up_ge : n ≤ up n d t * d
  up_ge = grind (arith, ceil_div_ge n (d * t) dt_pos)

  scaled : (q : ℕ) → q % t ≡ 0 → q / t * (d * t) ≡ q * d
  scaled q m = omega (arith, ap (λ (x : ℕ). x * d) (multiple_of_mod q t m))

  up_least : (q : ℕ) → q % t ≡ 0 → n ≤ q * d → up n d t ≤ q
  up_least q m h = omega (
    arith,
    mul-le-mul_right t (ceil_div_least n (d * t) (q / t) dt_pos (omega (arith, scaled q m))),
    multiple_of_mod q t m,
  )

  down_le : down n d t * d ≤ n
  down_le = grind (arith, floor_div_le n (d * t))

  down_greatest : (q : ℕ) → q % t ≡ 0 → q * d ≤ n → q ≤ down n d t
  down_greatest q m h = omega (
    arith,
    mul-le-mul_right t (floor_div_greatest n (d * t) (q / t) dt_pos (omega (arith, scaled q m))),
    multiple_of_mod q t m,
  )

round_exact :
    (s m u : ℕ) (b : Bool)
    → 0 < m
    → 0 < u
    → s % u ≡ 0
    → round (record { num = s * m; den = m }) u b ≡ s
unfolding round
round_exact s m u true m_pos u_pos grid = omega (
  arith,
  le_of_mul-le-mul_right (up_ge (s * m) m u m_pos u_pos) m_pos,
  up_least (s * m) m u m_pos u_pos s grid (omega arith),
)
round_exact s m u false m_pos u_pos grid = omega (
  arith,
  le_of_mul-le-mul_right (down_le (s * m) m u m_pos u_pos) m_pos,
  down_greatest (s * m) m u m_pos u_pos s grid (omega arith),
)

tick_at_scaled :
    (t : TickSchedule) (s m : ℕ)
    → 0 < m
    → tick_at t (record { num = s * m; den = m }) ≡ tick_at t (whole s)
unfolding tick_at
tick_at_scaled t s m m_pos = elim (Bool-cases (leb (t.cutoff_price * 1) s)) [
  | inl high ↦ let le : t.cutoff_price ≤ s = ground arith in ground (arith, mul-le-mul_right m le)
  | inr low ↦
      let lt : suc s ≤ t.cutoff_price = ground arith in ground (arith, mul-le-mul_right m lt)
]

-- A tick of zero would make no positive price valid: `p % 0` is p.
tick_pos : (s u : ℕ) → 0 < s → s % u ≡ 0 → 0 < u
tick_pos s zero pos grid = absurd (omega arith)
tick_pos s (suc u) pos grid = omega arith

-- A price that is already valid is not changed, on any schedule.
pub round_to_tick-is_valid_self :
    (t : TickSchedule) (side : OrderSide) (s m : ℕ)
    → 0 < m
    → is_valid t s ≡ true
    → round_to_tick (record { num = s * m; den = m }) t side ≡ ok s
unfolding round_to_tick
round_to_tick-is_valid_self t side s m m_pos h =
    let u : ℕ = tick_at t (whole s) in
    let parts : (0 < s) × (s % u ≡ 0) = unfold is_valid in ground arith in
    let exact = round_exact s m u (is_selling side) m_pos (tick_pos s u parts.0 parts.1) parts.1 in
    rw (tick_at_scaled t s m m_pos, exact, h, h) refl

-- Both ticks are positive, the tick above the cutoff is a multiple of the tick below it, and the
-- cutoff is a price of the upper grid.
pub record IsWellFormed (t : TickSchedule) : Type 0 where
  pub below_pos : 0 < t.below_tick
  pub above_pos : 0 < t.above_tick
  pub nested : t.above_tick % t.below_tick ≡ 0
  pub on_grid : t.cutoff_price % t.above_tick ≡ 0

module _ (t : TickSchedule) (w : IsWellFormed t) where
  -- A valid price lies on the lower grid, and from the cutoff on also on the upper one.
  valid_grids :
      (p : ℕ)
      → is_valid t p ≡ true
      → (0 < p) × (p % t.below_tick ≡ 0) × (t.cutoff_price ≤ p → p % t.above_tick ≡ 0)
  unfolding is_valid tick_at
  valid_grids p h = elim (Bool-cases (leb (t.cutoff_price * 1) p)) [
    | inl high ↦ (
      ground arith,
      mod_trans p t.above_tick t.below_tick (ground arith) w.nested,
      λ above. ground arith,
    )
    | inr low ↦ (ground arith, ground arith, λ above. ground arith)
  ]

  valid_low : (p : ℕ) → 0 < p → p < t.cutoff_price → p % t.below_tick ≡ 0 → is_valid t p ≡ true
  unfolding is_valid tick_at
  valid_low p pos low grid = ground arith

  valid_high : (p : ℕ) → 0 < p → t.cutoff_price ≤ p → p % t.above_tick ≡ 0 → is_valid t p ≡ true
  unfolding is_valid tick_at
  valid_high p pos high grid = ground arith

  module _ (raw : Quotient) (den_pos : 0 < raw.den) where
    -- The price is valid, not below the raw price, and no valid price lies between the two.
    abbrev pub IsCeiling : ℕ → Type 0
    IsCeiling p =
        (is_valid t p ≡ true)
        × (raw.num ≤ p * raw.den)
        × ((q : ℕ) → is_valid t q ≡ true → raw.num ≤ q * raw.den → p ≤ q)

    abbrev pub IsFloor : ℕ → Type 0
    IsFloor p =
        (is_valid t p ≡ true)
        × (p * raw.den ≤ raw.num)
        × ((q : ℕ) → is_valid t q ≡ true → q * raw.den ≤ raw.num → q ≤ p)

    high-IsCeiling :
        0 < raw.num
        → t.cutoff_price * raw.den ≤ raw.num
        → IsCeiling (up raw.num raw.den t.above_tick)
    high-IsCeiling pos high =
        let p : ℕ = up raw.num raw.den t.above_tick in
        let ge : raw.num ≤ p * raw.den = up_ge raw.num raw.den t.above_tick den_pos w.above_pos in
        (
          valid_high p (pos_through p raw.num raw.den pos ge)
              (le_through t.cutoff_price p raw.num raw.den den_pos high ge) (mul-mod_left _ _),
          ge,
          λ q v k.
              up_least raw.num raw.den t.above_tick den_pos w.above_pos q
                ((valid_grids q v).2 (le_through t.cutoff_price q raw.num raw.den den_pos high k))
                k,
        )

    cutoff_lower : t.cutoff_price % t.below_tick ≡ 0
    cutoff_lower = mod_trans t.cutoff_price t.above_tick t.below_tick w.on_grid w.nested

    -- A multiple of the lower tick that is at most the cutoff is valid.
    valid_upto : (p : ℕ) → 0 < p → p ≤ t.cutoff_price → p % t.below_tick ≡ 0 → is_valid t p ≡ true
    valid_upto p pos le grid = elim (Bool-cases (leb t.cutoff_price p)) [
      | inl reached ↦
          let e : p ≡ t.cutoff_price = omega (arith, leb→le t.cutoff_price p reached) in
          valid_high p pos (omega arith) (rw e w.on_grid)
      | inr low ↦ valid_low p pos (leb-false→lt t.cutoff_price p low) grid
    ]

    low-IsCeiling :
        0 < raw.num
        → raw.num < t.cutoff_price * raw.den
        → IsCeiling (up raw.num raw.den t.below_tick)
    low-IsCeiling pos low =
        let p : ℕ = up raw.num raw.den t.below_tick in
        let ge : raw.num ≤ p * raw.den = up_ge raw.num raw.den t.below_tick den_pos w.below_pos in
        (
          valid_upto p (pos_through p raw.num raw.den pos ge)
              (up_least raw.num raw.den t.below_tick den_pos w.below_pos t.cutoff_price cutoff_lower
                (omega arith))
              (mul-mod_left _ _),
          ge,
          λ q v k.
              up_least raw.num raw.den t.below_tick den_pos w.below_pos q (valid_grids q v).1 k,
        )

    -- No valid price that is not above the raw one passes the floor on the upper grid.
    high_most :
        t.cutoff_price * raw.den ≤ raw.num
        → (r : ℕ) → is_valid t r ≡ true
        → r * raw.den ≤ raw.num
        → r ≤ down raw.num raw.den t.above_tick
    high_most high r v k =
        let most = down_greatest raw.num raw.den t.above_tick den_pos w.above_pos in
        elim (Bool-cases (leb t.cutoff_price r)) [
          | inl above ↦ most r ((valid_grids r v).2 (leb→le t.cutoff_price r above)) k
          | inr low ↦
              omega (arith, most t.cutoff_price w.on_grid high, leb-false→lt t.cutoff_price r low)
        ]

    -- Some valid price q is not above the raw price, so the floor is positive.
    module _ (q : ℕ) (valid : is_valid t q ≡ true) (below : q * raw.den ≤ raw.num) where
      high-IsFloor :
          t.cutoff_price * raw.den ≤ raw.num → IsFloor (down raw.num raw.den t.above_tick)
      high-IsFloor high = (
        valid_high (down raw.num raw.den t.above_tick)
            (le_trans (valid_grids q valid).0 (high_most high q valid below))
            (down_greatest raw.num raw.den t.above_tick den_pos w.above_pos t.cutoff_price w.on_grid
              high)
            (mul-mod_left _ _),
        down_le raw.num raw.den t.above_tick den_pos w.above_pos,
        high_most high,
      )

      low-IsFloor : raw.num < t.cutoff_price * raw.den → IsFloor (down raw.num raw.den t.below_tick)
      low-IsFloor low =
          let p : ℕ = down raw.num raw.den t.below_tick in
          let le : p * raw.den ≤ raw.num =
            down_le raw.num raw.den t.below_tick den_pos w.below_pos in
          let most = down_greatest raw.num raw.den t.below_tick den_pos w.below_pos in
          (
            valid_low p (le_trans (valid_grids q valid).0 (most q (valid_grids q valid).1 below))
                (lt_through p t.cutoff_price raw.num raw.den le low) (mul-mod_left _ _),
            le,
            λ r v k. most r (valid_grids r v).1 k,
          )

      round_down_IsFloor : IsFloor (round raw (tick_at t raw) false)
      unfolding round tick_at
      round_down_IsFloor = elim (Bool-cases (leb (t.cutoff_price * raw.den) raw.num)) [
        | inl high ↦ rw high (high-IsFloor (leb→le (t.cutoff_price * raw.den) raw.num high))
        | inr low ↦ rw low (low-IsFloor (leb-false→lt (t.cutoff_price * raw.den) raw.num low))
      ]

      -- On a well-formed schedule a purchase is rounded down to the greatest valid price that is not
      -- above it, if there is one.
      pub round_to_tick-IsFloor : (p : ℕ) × (round_to_tick raw t buy_to_close ≡ ok p) × IsFloor p
      unfolding round_to_tick
      round_to_tick-IsFloor =
          let f = round_down_IsFloor in (round raw (tick_at t raw) false, ground (arith, f.0), f)

    round_up_IsCeiling : 0 < raw.num → IsCeiling (round raw (tick_at t raw) true)
    unfolding round tick_at
    round_up_IsCeiling pos = elim (Bool-cases (leb (t.cutoff_price * raw.den) raw.num)) [
      | inl high ↦ rw high (high-IsCeiling pos (leb→le (t.cutoff_price * raw.den) raw.num high))
      | inr low ↦ rw low (low-IsCeiling pos (leb-false→lt (t.cutoff_price * raw.den) raw.num low))
    ]

    -- On a well-formed schedule a sale is rounded up to the least valid price that is not below it.
    pub round_to_tick-IsCeiling :
        0 < raw.num → (p : ℕ) × (round_to_tick raw t sell_to_open ≡ ok p) × IsCeiling p
    unfolding round_to_tick
    round_to_tick-IsCeiling pos =
        let f = round_up_IsCeiling pos in (round raw (tick_at t raw) true, ground (arith, f.0), f)
