-- ===== src/Facts/Within.antt =====
-- When a number of contracts keeps to every cap of domain/facts_compute.py.
use wheelta_robinhood_agent.Common.{
  ℕ, ◌+◌, ◌*◌, ◌/◌, ◌-◌, ◌≤◌, ◌<◌, ◌≡◌, ◌↔◌, refl, sym, Bool, true, false, Option, none, some, List,
  [], ◌∷◌, if◌then◌else◌, any, All, ℤ, pos, negsuc, pos_part, of_diff, max_zero, ok, arith,
}
use wheelta_robinhood_agent.FactsRules.{
  FactsRuleMarker, unset, no_limit, agent_discretion, CountSetting, marker, count, MoneySetting,
  money_marker, amount, RatioSetting, ratio_marker, ratio, Decimal, scale, 0<power_of_ten,
}
use wheelta_robinhood_agent.Facts.Reads.{Cover}
use wheelta_robinhood_agent.Facts.Capacity.{
  Cap, unavailable, unlimited, at_most, contracts, ratio_contracts, order_cap, usd_cap, ratio_cap,
  cash_cap, total_cap, coverage_cap, is_unavailable, least, lower, some_or_raise, smallest, minus,
  times_ℤ, marker_cap,
}

-- Whether a cap lets `m` contracts through.
abbrev pub Allows : ℕ → Cap → Type 0
Allows m unavailable = Unit {0}
Allows m unlimited = Unit {0}
Allows m (at_most n) = m ≤ n

abbrev AtMost : ℕ → Option ℕ → Type 0
AtMost m none = Unit {0}
AtMost m (some n) = m ≤ n

lower_iff : (n m : ℕ) (o : Option ℕ) → AtMost m (lower n o) ↔ ((m ≤ n) × AtMost m o)
lower_iff n m none = ((λ h. (h, tt)), (λ h. h.0))
lower_iff n m (some k) = (
  (λ h. (omega (arith, h), omega (arith, h))),
  (λ h. let a = h.0 in let b = h.1 in omega (arith, a, b)),
)

least-Allows : (caps : List Cap) (m : ℕ) → AtMost m (least caps) ↔ All (Allows m) caps
least-Allows [] m = ((λ h. tt), (λ h. tt))
least-Allows (unavailable ∷ caps) m =
    let ih = least-Allows caps m in ((λ h. (tt, ih.0 h)), (λ h. ih.1 h.1))
least-Allows (unlimited ∷ caps) m =
    let ih = least-Allows caps m in ((λ h. (tt, ih.0 h)), (λ h. ih.1 h.1))
least-Allows (at_most n ∷ caps) m =
    let ih = least-Allows caps m in
    let here = lower_iff n m (least caps) in
    ((λ h. let both = here.0 h in (both.0, ih.0 both.1)), (λ h. here.1 (h.0, ih.1 h.1)))

at_least : (o : Option ℕ) (n : ℕ) → some_or_raise o ≡ ok (some n) → o ≡ some n
at_least none n h = absurd cc
at_least (some k) n h = cc

smallest_least :
    (caps : List Cap) (n : ℕ) (b : Bool)
    → any is_unavailable caps ≡ b
    → (if b then ok none else some_or_raise (least caps)) ≡ ok (some n)
    → (any is_unavailable caps ≡ false) × (least caps ≡ some n)
smallest_least caps n true e h = absurd cc
smallest_least caps n false e h = (e, at_least (least caps) n h)

pub smallest-Allows :
    (caps : List Cap) (n m : ℕ)
    → smallest caps ≡ ok (some n)
    → (any is_unavailable caps ≡ false) × ((m ≤ n) ↔ All (Allows m) caps)
unfolding smallest
smallest-Allows caps n m h =
    let split = smallest_least caps n (any is_unavailable caps) refl h in
    let through = least-Allows caps m in
    let at_n = split.1 in
    (
      split.0,
      (
        (λ below. through.0 (rw at_n below)),
        (λ allowed. let below = through.1 allowed in rw at_n at below),
      ),
    )

pub floor_iff : (x d m : ℕ) → 0 < d → (m ≤ x / d) ↔ (m * d ≤ x)
floor_iff x d m d_pos = ((λ h. grind (arith, h)), (λ h. grind (arith, h)))

max_zero-of_diff : (x y : ℕ) → max_zero (of_diff x y) ≡ x - y
max_zero-of_diff x y = ground arith

-- A positive product fits in a difference as it fits beside what is taken.
beside_iff : (a x y : ℕ) → 0 < a → (a ≤ x - y) ↔ (a + y ≤ x)
beside_iff a x y a_pos = ((λ h. omega (arith, h)), (λ h. omega (arith, h)))

0<product : (m per : ℕ) → 0 < m → 0 < per → 0 < m * per
0<product m per m_pos per_pos = grind arith

contracts_iff :
    (x y per m : ℕ) → 0 < per → 0 < m → (m ≤ contracts (of_diff x y) per) ↔ (m * per + y ≤ x)
contracts_iff x y per m per_pos m_pos =
    let room = max_zero-of_diff x y in
    let fits = floor_iff (x - y) per m per_pos in
    let beside = beside_iff (m * per) x y (0<product m per m_pos per_pos) in
    ((λ h. beside.0 (fits.0 (rw (sym room) h))), (λ h. rw room (fits.1 (beside.1 h))))

room_of : (k : ℕ) (v : ℤ) (t : ℕ) → max_zero (minus (times_ℤ k v) t) ≡ k * pos_part v - t
room_of k (pos n) t = ground arith
room_of k (negsuc n) t = ground arith

ratio_iff :
    (d : Decimal) (v : ℤ) (taken per m : ℕ)
    → 0 < per
    → 0 < m
    → (m ≤ ratio_contracts d v taken per) ↔ (scale d * (m * per + taken) ≤ d.digits * max_zero v)
ratio_iff d v taken per m per_pos m_pos =
    let room = room_of d.digits v (scale d * taken) in
    let scale_pos = 0<power_of_ten d.places in
    let fits =
      floor_iff (d.digits * max_zero v - scale d * taken) (per * scale d) m
        (0<product per (scale d) per_pos scale_pos) in
    let same : m * (per * scale d) ≡ scale d * (m * per) = grind arith in
    let apart : scale d * (m * per + taken) ≡ m * (per * scale d) + scale d * taken = grind arith in
    let beside =
      beside_iff (m * (per * scale d)) (d.digits * max_zero v) (scale d * taken)
        (0<product m (per * scale d) m_pos (0<product per (scale d) per_pos scale_pos)) in
    (
      (λ h. rw apart (beside.0 (fits.0 (rw (sym room) h)))),
      (λ h. rw room (fits.1 (beside.1 (rw⁻¹ apart h)))),
    )

-- What each rule lets through.
abbrev pub WithinCount : CountSetting → ℕ → Type 0
WithinCount (count n) m = m ≤ n
WithinCount (marker x) m = Unit {0}

abbrev pub WithinUsd : MoneySetting → Option ℕ → ℕ → ℕ → Type 0
WithinUsd (amount usd) (some existing) per m = m * per + existing ≤ usd
WithinUsd (amount usd) none per m = Unit {0}
WithinUsd (money_marker x) existing per m = Unit {0}

abbrev pub WithinRatio : RatioSetting → Option ℤ → Option ℕ → ℕ → ℕ → Type 0
WithinRatio (ratio d) (some value) (some existing) per m =
    scale d * (m * per + existing) ≤ d.digits * max_zero value
WithinRatio (ratio d) (some value) none per m = Unit {0}
WithinRatio (ratio d) none existing per m = Unit {0}
WithinRatio (ratio_marker x) value existing per m = Unit {0}

abbrev pub WithinCash : Option ℕ → Option ℕ → ℕ → ℕ → Type 0
WithinCash (some reserve) (some cash) per m = m * per + reserve ≤ cash
WithinCash (some reserve) none per m = Unit {0}
WithinCash none cash per m = Unit {0}

abbrev pub WithinTotal : RatioSetting → Option ℕ → Option ℕ → ℕ → ℕ → Type 0
WithinTotal (ratio d) (some cash) (some reserved) per m =
    scale d * (m * per + reserved) ≤ d.digits * (cash + reserved)
WithinTotal (ratio d) (some cash) none per m = Unit {0}
WithinTotal (ratio d) none reserved per m = Unit {0}
WithinTotal (ratio_marker x) cash reserved per m = Unit {0}

abbrev pub WithinCoverage : Option ℕ → Option Decimal → Option Cover → ℕ → ℕ → Type 0
WithinCoverage (some multiplier) (some d) (some covered) owned m =
    scale d * (m * multiplier + covered.shares) ≤ d.digits * owned
WithinCoverage (some multiplier) (some d) none owned m = Unit {0}
WithinCoverage (some multiplier) none covered owned m = Unit {0}
WithinCoverage none d covered owned m = Unit {0}

anything : {A : Type 0} → A → A ↔ Unit {0}
anything a = ((λ h. tt), (λ h. a))

marker-Allows : (x : FactsRuleMarker) (m : ℕ) → Allows m (marker_cap x)
marker-Allows no_limit m = tt
marker-Allows unset m = tt
marker-Allows agent_discretion m = tt

module _ (m : ℕ) (m_pos : 0 < m) where
  pub order_iff : (s : CountSetting) → Allows m (order_cap s) ↔ WithinCount s m
  unfolding order_cap
  order_iff (count n) = ((λ h. h), (λ h. h))
  order_iff (marker x) = anything (marker-Allows x m)

  module _ (per : ℕ) (per_pos : 0 < per) where
    pub usd_iff :
        (s : MoneySetting) (existing : Option ℕ)
        → Allows m (usd_cap s existing per) ↔ WithinUsd s existing per m
    unfolding usd_cap
    usd_iff (amount usd) (some existing) = contracts_iff usd existing per m per_pos m_pos
    usd_iff (amount usd) none = anything tt
    usd_iff (money_marker x) existing = anything (marker-Allows x m)

    pub ratio_cap_iff :
        (s : RatioSetting) (value : Option ℤ) (existing : Option ℕ)
        → Allows m (ratio_cap s value existing per) ↔ WithinRatio s value existing per m
    unfolding ratio_cap
    ratio_cap_iff (ratio d) (some value) (some existing) =
        ratio_iff d value existing per m per_pos m_pos
    ratio_cap_iff (ratio d) (some value) none = anything tt
    ratio_cap_iff (ratio d) none (some existing) = anything tt
    ratio_cap_iff (ratio d) none none = anything tt
    ratio_cap_iff (ratio_marker x) value existing = anything (marker-Allows x m)

    pub cash_iff :
        (reserve cash : Option ℕ)
        → Allows m (cash_cap reserve cash per) ↔ WithinCash reserve cash per m
    unfolding cash_cap
    cash_iff (some reserve) (some cash) = contracts_iff cash reserve per m per_pos m_pos
    cash_iff (some reserve) none = anything tt
    cash_iff none cash = anything tt

    pub total_iff :
        (s : RatioSetting) (cash reserved : Option ℕ)
        → Allows m (total_cap s cash reserved per) ↔ WithinTotal s cash reserved per m
    unfolding total_cap
    total_iff (ratio d) (some cash) (some reserved) =
        ratio_iff d (pos (cash + reserved)) reserved per m per_pos m_pos
    total_iff (ratio d) (some cash) none = anything tt
    total_iff (ratio d) none reserved = anything tt
    total_iff (ratio_marker x) cash reserved = anything (marker-Allows x m)

  pub coverage_iff :
      (multiplier : ℕ)
      → 0 < multiplier
      → (d : Option Decimal) (covered : Option Cover) (owned : ℕ)
      → Allows m (coverage_cap (some multiplier) d covered owned)
        ↔ WithinCoverage (some multiplier) d covered owned m
  unfolding coverage_cap
  coverage_iff multiplier mult_pos (some d) (some covered) owned =
      ratio_iff d (pos owned) covered.shares multiplier m mult_pos m_pos
  coverage_iff multiplier mult_pos (some d) none owned = anything tt
  coverage_iff multiplier mult_pos none covered owned = anything tt
