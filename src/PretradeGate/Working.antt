-- ===== src/PretradeGate/Working.antt =====
-- What is working beside a placement, for the gate of agent/pretrade_gate.py, without the code's own functions.
use wheelta_robinhood_agent.Common.{
  ℕ, zero, suc, leb, all, ◌&&◌, ◌||◌, ◌+◌, ◌≤◌, ◌≡◌, ◌≢◌, ◌↔◌, ◌⊎◌, inl, inr, refl, sym, ap, ap₂,
  ◌∙◌, Bool, true, false, not, Bool-cases, Option, none, some, List, [], ◌∷◌, ◌++◌, map, keep_if,
  ◌==◌, ==_iff, ℤ, pos, of_diff, ltb, arith,
}
use wheelta_robinhood_agent.Texts.{Text, codes, same_text, lower_letter, lowered}
use wheelta_robinhood_agent.Concurrency.{WorkingPlacement}
use wheelta_robinhood_agent.PretradeGate.{
  Intent, PlacedOrder, WalkInProgress, PlacementState, is_close_order, remaining_of, working_with,
  working_of, walk_of, unexcluded, without_own, all_working,
}

-- The text is the lower-case word, each letter written small or large.
abbrev pub Spells : Text → Text → Type 0
Spells [] [] = Unit {0}
Spells [] (d ∷ word) = true ≡ false
Spells (c ∷ text) [] = true ≡ false
Spells (c ∷ text) (d ∷ word) =
    ((c ≡ d) ⊎ ((b'a' ≤ d) × ((d ≤ b'z') × (c + 32 ≡ d)))) × Spells text word

is_small : ℕ → Bool
is_small d = ltb d b'A' || ltb b'Z' d

letter_iff :
    (c d : ℕ)
    → is_small d ≡ true
    → (lower_letter c ≡ d) ↔ ((c ≡ d) ⊎ ((b'a' ≤ d) × ((d ≤ b'z') × (c + 32 ≡ d))))
unfolding is_small
letter_iff c d small = ((λ h. to_cases c d small h), (λ h. from_cases c d small h))
  where
    to_cases :
        (c d : ℕ)
        → is_small d ≡ true
        → lower_letter c ≡ d
        → (c ≡ d) ⊎ ((b'a' ≤ d) × ((d ≤ b'z') × (c + 32 ≡ d)))
    to_cases c d small h = elim (Bool-cases (leb b'A' c && leb c b'Z')) [
      | inl large ↦ let h' : c + 32 ≡ d = rw large at h in inr (ground arith, (ground arith, h'))
      | inr other ↦ inl (rw other at h)
    ]

    from_cases :
        (c d : ℕ)
        → is_small d ≡ true
        → (c ≡ d) ⊎ ((b'a' ≤ d) × ((d ≤ b'z') × (c + 32 ≡ d)))
        → lower_letter c ≡ d
    from_cases c d small (inl same) = ground arith
    from_cases c d small (inr (low, (high, shifted))) = ground arith

Spells-iff :
    (text word : Text)
    → all is_small word ≡ true
    → (same_text (lowered text) word ≡ true) ↔ Spells text word
Spells-iff [] [] small = ((λ h. tt), (λ h. refl))
Spells-iff [] (d ∷ word) small = ((λ h. sym h), (λ h. sym h))
Spells-iff (c ∷ text) [] small = ((λ h. sym h), (λ h. sym h))
Spells-iff (c ∷ text) (d ∷ word) small =
    let first : is_small d ≡ true = ground arith in
    let others : all is_small word ≡ true = ground arith in
    let letter = letter_iff c d first in
    let rest = Spells-iff text word others in
    (
      (λ h.
          let at_first : lower_letter c ≡ d = ground arith in
          let after : same_text (lowered text) word ≡ true = ground arith in
          (letter.0 at_first, rest.0 after)),
      (λ h.
          let at_first = letter.1 h.0 in
          let after = rest.1 h.1 in
          let same : (lower_letter c == d) ≡ true = (==_iff (lower_letter c) d).1 at_first in
          rw (same, after) refl),
    )

-- A recorded side that names a buy to close, whatever the case of its letters.
abbrev pub NamesClose : Option Text → Type 0
NamesClose none = true ≡ false
NamesClose (some text) = Spells text (codes "buy_to_close")

is_close_order-NamesClose :
    (side_raw : Option Text) → (is_close_order side_raw ≡ true) ↔ NamesClose side_raw
unfolding is_small
is_close_order-NamesClose none = ((λ h. sym h), (λ h. sym h))
is_close_order-NamesClose (some text) = Spells-iff text (codes "buy_to_close") refl

-- What is left of an order's quantity, where a quantity that is not 0 is known.
abbrev pub IsLeft : Option ℕ → Option ℕ → Option ℤ → Type 0
IsLeft none filled left = left ≡ none
IsLeft (some zero) filled left = left ≡ none
IsLeft (some (suc n)) none left = left ≡ some (pos (suc n))
IsLeft (some (suc n)) (some filled) left = left ≡ some (of_diff (suc n) filled)

remaining_of-IsLeft :
    (quantity filled : Option ℕ) → IsLeft quantity filled (remaining_of quantity filled)
remaining_of-IsLeft none filled = refl
remaining_of-IsLeft (some zero) filled = refl
remaining_of-IsLeft (some (suc n)) none = ground arith
remaining_of-IsLeft (some (suc n)) (some filled) = ground arith

IsLeft-eq :
    (quantity filled : Option ℕ) (a b : Option ℤ)
    → IsLeft quantity filled a
    → IsLeft quantity filled b
    → a ≡ b
IsLeft-eq none filled a b h k = h ∙ sym k
IsLeft-eq (some zero) filled a b h k = h ∙ sym k
IsLeft-eq (some (suc n)) none a b h k = h ∙ sym k
IsLeft-eq (some (suc n)) (some filled) a b h k = h ∙ sym k

-- A recorded order as what is working: nothing is known of one without an intent.
pub data IsWorking : PlacedOrder → WorkingPlacement → Type 0 where
  unknown :
      (label : ℕ) (filled : Option ℕ)
      → IsWorking
          (record { label = label; intent = none; filled_quantity = filled })
          (record {
            label = label;
            option_id = none;
            closing = false;
            remaining_quantity = none;
            limit_price = none;
          })
  known :
      (label : ℕ) (filled : Option ℕ) (intent : Intent) (closing : Bool) (left : Option ℤ)
      → (closing ≡ true) ↔ NamesClose intent.side_raw
      → IsLeft intent.quantity filled left
      → IsWorking
          (record { label = label; intent = some intent; filled_quantity = filled })
          (record {
            label = label;
            option_id = intent.broker_instrument_id;
            closing = closing;
            remaining_quantity = left;
            limit_price = intent.limit_price;
          })

same_bool : (a b : Bool) → (a ≡ true → b ≡ true) → (b ≡ true → a ≡ true) → a ≡ b
same_bool true b f g = sym (f refl)
same_bool false true f g = g refl
same_bool false false f g = refl

IsWorking-eq : (o : PlacedOrder) (w : WorkingPlacement) → IsWorking o w → w ≡ working_of o
IsWorking-eq _ _ (unknown label filled) = refl
IsWorking-eq _ _ (known label filled intent closing left closes is_left) =
    let named = is_close_order-NamesClose intent.side_raw in
    let same : closing ≡ is_close_order intent.side_raw =
      same_bool closing (is_close_order intent.side_raw) (λ h. named.1 (closes.0 h))
        (λ h. closes.1 (named.0 h)) in
    let remains : left ≡ remaining_of intent.quantity filled =
      IsLeft-eq intent.quantity filled left (remaining_of intent.quantity filled) is_left
        (remaining_of-IsLeft intent.quantity filled) in
    rw (same, remains) refl

with_intent :
    (label : ℕ) (filled : Option ℕ) (intent : Option Intent)
    → IsWorking
        (record { label = label; intent = intent; filled_quantity = filled })
        (working_with label filled intent)
with_intent label filled none = unknown label filled
with_intent label filled (some intent) =
    known label filled intent (is_close_order intent.side_raw) (remaining_of intent.quantity filled)
      (is_close_order-NamesClose intent.side_raw) (remaining_of-IsLeft intent.quantity filled)

-- The walks that are in progress, but for the placement's own.
pub data Others (own : Option ℕ) : List WalkInProgress → List WalkInProgress → Type 0 where
  none_left : Others own [] []
  its_own :
      (j : WalkInProgress) (jobs others : List WalkInProgress)
      → own ≡ some j.job_id
      → Others own jobs others
      → Others own (j ∷ jobs) others
  another :
      (j : WalkInProgress) (jobs others : List WalkInProgress)
      → own ≢ some j.job_id
      → Others own jobs others
      → Others own (j ∷ jobs) (j ∷ others)

-- A walk works at its worst price.
pub data AreWalks : List WalkInProgress → List WorkingPlacement → Type 0 where
  no_walk : AreWalks [] []
  a_walk :
      (j : WalkInProgress) (jobs : List WalkInProgress) (ws : List WorkingPlacement)
      → AreWalks jobs ws
      → AreWalks (j ∷ jobs) (
          record {
            label = j.job_id;
            option_id = some j.option_id;
            closing = j.closing;
            remaining_quantity = some (pos j.remaining_quantity);
            limit_price = some j.worst_price;
          }
          ∷ ws)

pub data AreOrders : List PlacedOrder → List WorkingPlacement → Type 0 where
  no_order : AreOrders [] []
  an_order :
      (o : PlacedOrder) (w : WorkingPlacement) (os : List PlacedOrder) (ws : List WorkingPlacement)
      → IsWorking o w
      → AreOrders os ws
      → AreOrders (o ∷ os) (w ∷ ws)

AreOrders-eq :
    (os : List PlacedOrder) (ws : List WorkingPlacement) → AreOrders os ws → ws ≡ map working_of os
AreOrders-eq _ _ no_order = refl
AreOrders-eq _ _ (an_order o w os ws h rest) =
    ap₂ (λ x xs. x ∷ xs) (IsWorking-eq o w h) (AreOrders-eq os ws rest)

all_orders : (os : List PlacedOrder) → AreOrders os (map working_of os)
all_orders [] = no_order
all_orders (o ∷ os) =
    an_order o (working_of o) os (map working_of os)
      (with_intent o.label o.filled_quantity o.intent) (all_orders os)

AreWalks-eq :
    (jobs : List WalkInProgress) (ws : List WorkingPlacement)
    → AreWalks jobs ws
    → ws ≡ map walk_of jobs
AreWalks-eq _ _ no_walk = refl
AreWalks-eq _ _ (a_walk j jobs ws rest) = ap (λ xs. walk_of j ∷ xs) (AreWalks-eq jobs ws rest)

all_walks : (jobs : List WalkInProgress) → AreWalks jobs (map walk_of jobs)
all_walks [] = no_walk
all_walks (j ∷ jobs) = a_walk j jobs (map walk_of jobs) (all_walks jobs)

Others-none : (jobs others : List WalkInProgress) → Others none jobs others → others ≡ jobs
Others-none _ _ none_left = refl
Others-none _ _ (its_own j jobs others e h) = absurd cc
Others-none _ _ (another j jobs others e h) = ap (λ xs. j ∷ xs) (Others-none jobs others h)

Others-some :
    (own : ℕ) (jobs others : List WalkInProgress)
    → Others (some own) jobs others
    → others ≡ keep_if (λ j. not (j.job_id == own)) jobs
Others-some own _ _ none_left = refl
Others-some own _ _ (its_own j jobs others e h) =
    let same : (j.job_id == own) ≡ true = (==_iff j.job_id own).1 cc in
    rw (same, keep_if) (Others-some own jobs others h)
Others-some own _ _ (another j jobs others apart h) = elim (Bool-cases (j.job_id == own)) [
  | inl same ↦ absurd (apart (ap some (sym ((==_iff j.job_id own).0 same))))
  | inr differs ↦ rw (differs, keep_if) (ap (λ xs. j ∷ xs) (Others-some own jobs others h))
]

all_none : (jobs : List WalkInProgress) → Others none jobs jobs
all_none [] = none_left
all_none (j ∷ jobs) = another j jobs jobs (λ e. cc) (all_none jobs)

all-Others :
    (own : ℕ) (jobs : List WalkInProgress)
    → Others (some own) jobs (keep_if (λ j. not (j.job_id == own)) jobs)
all-Others own [] = none_left
all-Others own (j ∷ jobs) = by_test (j.job_id == own) refl (all-Others own jobs)
  where
    by_test :
        (b : Bool)
        → (j.job_id == own) ≡ b
        → Others (some own) jobs (keep_if (λ i. not (i.job_id == own)) jobs)
        → Others (some own) (j ∷ jobs) (elim (not b) [
          | true ↦ j ∷ keep_if (λ i. not (i.job_id == own)) jobs
          | false ↦ keep_if (λ i. not (i.job_id == own)) jobs
        ])
    by_test true e rest = its_own j jobs _ (ap some (sym ((==_iff j.job_id own).0 e))) rest
    by_test false e rest =
        another j jobs _
          (λ same.
            let at_own : j.job_id ≡ own = cc in let found = (==_iff j.job_id own).1 at_own in cc)
          rest

-- What works beside a placement: the orders that are not settled, and the walks but for its own.
pub record Beside (own : Option ℕ) (state : PlacementState) (ws : List WorkingPlacement)
    : Type 0 where
  pub others : List WalkInProgress
  pub orders : List WorkingPlacement
  pub walks : List WorkingPlacement
  pub are_others : Others own state.active_jobs others
  pub are_orders : AreOrders state.unresolved orders
  pub are_walks : AreWalks others walks
  pub are_all : ws ≡ orders ++ walks

Others-eq :
    (own : Option ℕ) (jobs others : List WalkInProgress)
    → Others own jobs others
    → others ≡ unexcluded own jobs
Others-eq none jobs others h = Others-none jobs others h
Others-eq (some own) jobs others h = Others-some own jobs others h

are_unexcluded :
    (own : Option ℕ) (jobs : List WalkInProgress) → Others own jobs (unexcluded own jobs)
are_unexcluded none jobs = all_none jobs
are_unexcluded (some own) jobs = all-Others own jobs

pub Beside-eq :
    (own : Option ℕ) (self_in_flight : Bool) (state : PlacementState) (ws : List WorkingPlacement)
    → Beside own state ws
    → ws ≡ all_working (without_own own self_in_flight state)
Beside-eq own self_in_flight state ws b =
    b.are_all
    ∙ ap₂ (λ xs ys. xs ++ ys) (AreOrders-eq state.unresolved b.orders b.are_orders)
        (AreWalks-eq b.others b.walks b.are_walks
          ∙ ap (map walk_of) (Others-eq own state.active_jobs b.others b.are_others))

pub all-Beside :
    (own : Option ℕ) (self_in_flight : Bool) (state : PlacementState)
    → Beside own state (all_working (without_own own self_in_flight state))
all-Beside own self_in_flight state = record {
  others = unexcluded own state.active_jobs;
  orders = map working_of state.unresolved;
  walks = map walk_of (unexcluded own state.active_jobs);
  are_others = are_unexcluded own state.active_jobs;
  are_orders = all_orders state.unresolved;
  are_walks = all_walks (unexcluded own state.active_jobs);
  are_all = refl;
}
