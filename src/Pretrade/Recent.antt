-- ===== src/Pretrade/Recent.antt =====
-- Which observations domain/pretrade.py takes as recent, and what its days to expiration are.
use wheelta_robinhood_agent.Common.{
  ℕ, ◌+◌, ◌*◌, ◌≤◌, ◌≡◌, ◌↔◌, refl, true, false, inl, inr, Bool-cases, Option, none, some, pos_part,
  of_diff, ◌-◌, arith,
}
use wheelta_robinhood_agent.FactsRules.{
  unset, no_limit, agent_discretion, CountSetting, marker, count,
}
use wheelta_robinhood_agent.Facts.Reads.{is_recent}
use wheelta_robinhood_agent.Pretrade.{LegQuote, Spot, of_count, usable_quote, usable_price}
use wheelta_robinhood_agent.Pretrade.Bounds.{AtLeast, AtMost}

-- Seen by now, and not longer ago than the seconds of the setting; a setting to be decided lets nothing
-- through.
abbrev pub IsRecent : ℕ → ℕ → CountSetting → Type 0
IsRecent as_of observed (marker no_limit) = observed ≤ as_of
IsRecent as_of observed (marker unset) = true ≡ false
IsRecent as_of observed (marker agent_discretion) = true ≡ false
IsRecent as_of observed (count seconds) =
    (observed ≤ as_of) × (as_of ≤ observed + seconds * 1000000)

pub is_recent-IsRecent :
    (as_of observed : ℕ) (age : CountSetting)
    → (is_recent as_of observed age ≡ true) ↔ IsRecent as_of observed age
unfolding is_recent
is_recent-IsRecent as_of observed (marker no_limit) = ((λ h. ground arith), (λ h. ground arith))
is_recent-IsRecent as_of observed (marker unset) = ((λ h. absurd cc), (λ h. absurd cc))
is_recent-IsRecent as_of observed (marker agent_discretion) = ((λ h. absurd cc), (λ h. absurd cc))
is_recent-IsRecent as_of observed (count seconds) =
    ((λ h. (ground arith, ground arith)), (λ (seen, young). ground arith))

pub usable_quote_iff :
    (as_of : ℕ) (age : CountSetting) (o : Option LegQuote) (q : LegQuote)
    → (usable_quote as_of age o ≡ some q) ↔ ((o ≡ some q) × IsRecent as_of q.as_of age)
usable_quote_iff as_of age none q = ((λ h. absurd cc), (λ h. absurd (let e = h.0 in cc)))
usable_quote_iff as_of age (some seen) q =
    let recent = is_recent-IsRecent as_of seen.as_of age in
    elim (Bool-cases (is_recent as_of seen.as_of age)) [
      | inl young ↦
          rw young ((λ h. let same : seen ≡ q = cc in (h, rw⁻¹ same (recent.0 young))), (λ h. h.0))
      | inr old ↦ rw old (
        (λ h. absurd cc),
        (λ h.
            let e = h.0 in
            let same : q ≡ seen = cc in
            let found : is_recent as_of seen.as_of age ≡ true = recent.1 (rw⁻¹ same h.1) in
            absurd cc),
      )
    ]

pub usable_price_iff :
    (as_of : ℕ) (age : CountSetting) (o : Option Spot) (price : ℕ)
    → (usable_price as_of age o ≡ some price)
      ↔ ((s : Spot) × ((o ≡ some s) × ((s.price ≡ price) × IsRecent as_of s.as_of age)))
usable_price_iff as_of age none price = ((λ h. absurd cc), (λ h. absurd (let e = h.1.0 in cc)))
usable_price_iff as_of age (some seen) price =
    let recent = is_recent-IsRecent as_of seen.as_of age in
    elim (Bool-cases (is_recent as_of seen.as_of age)) [
      | inl young ↦ rw young (
        (λ h. (seen, (refl, (cc, recent.0 young)))),
        (λ h. let is_seen = h.1.0 in let at_price = h.1.1.0 in let same : seen ≡ h.0 = cc in cc),
      )
      | inr old ↦ rw old (
        (λ h. absurd cc),
        (λ h.
            let is_seen = h.1.0 in
            let same : h.0 ≡ seen = cc in
            let found : is_recent as_of seen.as_of age ≡ true = recent.1 (rw⁻¹ same h.1.1.1) in
            absurd cc),
      )
    ]

-- At least and at most so many days from one day to another.
abbrev pub DaysAtLeast : CountSetting → ℕ → ℕ → Type 0
DaysAtLeast (count n) from until = from + n ≤ until
DaysAtLeast (marker unset) from until = true ≡ false
DaysAtLeast (marker no_limit) from until = Unit {0}
DaysAtLeast (marker agent_discretion) from until = Unit {0}

abbrev pub DaysAtMost : CountSetting → ℕ → ℕ → Type 0
DaysAtMost (count n) from until = until ≤ from + n
DaysAtMost (marker unset) from until = true ≡ false
DaysAtMost (marker no_limit) from until = Unit {0}
DaysAtMost (marker agent_discretion) from until = Unit {0}

pub DaysAtLeast-iff :
    (s : CountSetting) (from until : ℕ)
    → AtLeast (some (of_count s)) (record { numerator = of_diff until from; denominator = 1 })
      ↔ DaysAtLeast s from until
DaysAtLeast-iff (count n) from until = ((λ h. ground arith), (λ h. ground arith))
DaysAtLeast-iff (marker unset) from until = ((λ h. h), (λ h. h))
DaysAtLeast-iff (marker no_limit) from until = ((λ h. tt), (λ h. tt))
DaysAtLeast-iff (marker agent_discretion) from until = ((λ h. tt), (λ h. tt))

pub DaysAtMost-iff :
    (s : CountSetting) (from until : ℕ)
    → AtMost (some (of_count s)) (record { numerator = of_diff until from; denominator = 1 })
      ↔ DaysAtMost s from until
DaysAtMost-iff (count n) from until = ((λ h. ground arith), (λ h. ground arith))
DaysAtMost-iff (marker unset) from until = ((λ h. h), (λ h. h))
DaysAtMost-iff (marker no_limit) from until = ((λ h. tt), (λ h. tt))
DaysAtMost-iff (marker agent_discretion) from until = ((λ h. tt), (λ h. tt))

pub days_left : (from until : ℕ) → pos_part (of_diff until from) ≡ until - from
days_left from until = ground arith
