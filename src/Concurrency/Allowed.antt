-- ===== src/Concurrency/Allowed.antt =====
-- When `check_concurrency` of domain/order_concurrency.py lets a placement through.
use wheelta_robinhood_agent.Common.{
  ℕ, ◌+◌, ◌≤◌, ◌≡◌, refl, ap, ◌↔◌, Bool, true, false, not, ◌||◌, Option, none, some, List, [], ◌∷◌,
  ◌⊎◌, inl, inr, Result, ok, err, ◌>>=◌, DateTime, aware, naive, all, keep_if, is_empty, All, sum,
  ltb, if◌then◌else◌, arith, Bool-cases, ok-injective,
}
use wheelta_robinhood_agent.Sanity.{require_aware}
use wheelta_robinhood_agent.Concurrency.{
  CountSetting, NewPlacement, WorkingPlacement, AccountSnapshot, working_order, this_order, Gap,
  Denial, cash_of, Tally, tally_all, multiplier_of, on_contract, whole_quantity, working_debit,
  leg_debit, tally, verdict, check_working, check_concurrency,
}
use wheelta_robinhood_agent.Concurrency.Funds.{
  IsDebit, Amounts, IsCash, debit_sound, debit_complete, tally_sound, tally_complete, cash_of_sound,
  cash_of_complete,
}

-- The placement is on other contracts than the working orders, everything is a close, and the debits of
-- all of them, each known, are covered by verified cash.
pub record IsAffordable (multipliers : ℕ → Option ℕ) (account : Option AccountSnapshot)
    (max_age : CountSetting) (as_of : DateTime) (new : NewPlacement)
    (working : List WorkingPlacement) : Type 0 where
  pub apart : All (λ w. on_contract new.legs w.option_id ≡ false) working
  pub new_closes : All (λ leg. leg.closing ≡ true) new.legs
  pub working_closes : All (λ w. w.closing ≡ true) working
  pub owed : List ℕ
  pub owed_are :
      Amounts
        (λ w. IsDebit w.limit_price (multiplier_of multipliers w.option_id) w.remaining_quantity)
        working
        owed
  pub due : List ℕ
  pub due_are :
      Amounts
        (λ leg. IsDebit new.limit_price (multipliers leg.option_id) (whole_quantity new.quantity))
        new.legs
        due
  pub cash : ℕ
  pub cash_is : IsCash account max_age as_of cash
  pub covered : sum owed + sum due ≤ cash

none_kept :
    {A : Type 0} (p : A → Bool) (xs : List A)
    → (is_empty (keep_if p xs) ≡ true) ↔ All (λ x. p x ≡ false) xs
none_kept p [] = (λ h. tt, λ h. refl)
none_kept p (x ∷ xs) = elim (Bool-cases (p x)) [
  | inl kept ↦ rw (kept, keep_if) (λ h. absurd cc, λ h. absurd (let d = h.0 in cc))
  | inr dropped ↦
      rw (dropped, keep_if) (λ h. (refl, (none_kept p xs).0 h), λ h. (none_kept p xs).1 h.1)
]

all_iff : {A : Type 0} (p : A → Bool) (xs : List A) → (all p xs ≡ true) ↔ All (λ x. p x ≡ true) xs
all_iff p [] = (λ h. tt, λ h. refl)
all_iff p (x ∷ xs) = elim (Bool-cases (p x)) [
  | inl kept ↦ rw kept (λ h. (refl, (all_iff p xs).0 h), λ h. (all_iff p xs).1 h.1)
  | inr dropped ↦ rw dropped (λ h. absurd cc, λ h. absurd (let d = h.0 in cc))
]

verdict-none :
    (t : Tally) (cash : ℕ ⊎ Gap)
    → verdict t cash ≡ none
    → (c : ℕ) × (cash ≡ inl c) × (is_empty t.gaps ≡ true) × (t.total ≤ c)
verdict-none t (inr gap) h = absurd cc
verdict-none t (inl c) h = elim (Bool-cases (is_empty t.gaps)) [
  | inl empty ↦ elim (Bool-cases (ltb c t.total)) [
    | inl over ↦ absurd (let h' = rw (empty, over) at h in cc)
    | inr fits ↦ (c, refl, empty, ground arith)
  ]
  | inr full ↦ absurd (let h' = rw full at h in cc)
]

aware_bind :
    (d : DateTime) (now : ℕ) (x : Result (Option Denial))
    → d ≡ aware now
    → (require_aware d >>= λ (t : ℕ). x) ≡ x
unfolding require_aware
aware_bind (aware t) now x e = refl
aware_bind (naive t) now x e = absurd cc

-- The two denials that come before the funds.
guards :
    (apart a b : Bool) (x y : Denial) (z : Result (Option Denial))
    → ((if not apart then ok (some x) else if not a || not b then ok (some y) else z) ≡ ok none)
      ↔ ((apart ≡ true) × (a ≡ true) × (b ≡ true) × (z ≡ ok none))
guards true true true x y z = (λ h. (refl, refl, refl, h), λ (p, q, r, h). h)
guards false a b x y z = (λ h. absurd cc, λ (p, q, r, h). absurd cc)
guards true false b x y z = (λ h. absurd cc, λ (p, q, r, h). absurd cc)
guards true true false x y z = (λ h. absurd cc, λ (p, q, r, h). absurd cc)

verdict-fits :
    (t : Tally) (cash : ℕ) → is_empty t.gaps ≡ true → t.total ≤ cash → verdict t (inl cash) ≡ none
verdict-fits t cash empty le = rw empty (ground arith)

verdict-bind :
    (t : Tally) (funds : Result (ℕ ⊎ Gap))
    → (funds >>= λ cash. ok (verdict t cash)) ≡ ok none
    → (c : ℕ) × (funds ≡ ok (inl c)) × (is_empty t.gaps ≡ true) × (t.total ≤ c)
verdict-bind t (ok cash) h =
    let (c, is_cash, empty, le) = verdict-none t cash (ok-injective h) in
    (c, ap ok is_cash, empty, le)
verdict-bind t (err e) h = absurd cc

module _ (multipliers : ℕ → Option ℕ) (account : Option AccountSnapshot) (max_age : CountSetting)
    (as_of : DateTime) (new : NewPlacement) where
  abbrev Affordable : List WorkingPlacement → Type 0
  Affordable working = IsAffordable multipliers account max_age as_of new working

  tally_of_sound :
      (working : List WorkingPlacement)
      → is_empty (tally multipliers new working).gaps ≡ true
      → (owed : List ℕ) × (due : List ℕ) × Amounts
          (λ w. IsDebit w.limit_price (multiplier_of multipliers w.option_id) w.remaining_quantity)
          working
          owed
        × Amounts
            (λ leg.
              IsDebit new.limit_price (multipliers leg.option_id) (whole_quantity new.quantity))
            new.legs
            due
        × ((tally multipliers new working).total ≡ sum owed + sum due)
  unfolding tally working_debit leg_debit
  tally_of_sound working h =
      let start : Tally = record { gaps = []; total = 0 } in
      let after = tally_all (working_debit multipliers) working start in
      let (empty, due, due_are, total) =
        tally_sound (leg_debit multipliers new)
          (λ leg. IsDebit new.limit_price (multipliers leg.option_id) (whole_quantity new.quantity))
          (λ leg d e.
            debit_sound new.limit_price (multipliers leg.option_id) (whole_quantity new.quantity)
              this_order d e)
          new.legs after h in
      let (start_empty, owed, owed_are, before) =
        tally_sound (working_debit multipliers)
          (λ w. IsDebit w.limit_price (multiplier_of multipliers w.option_id) w.remaining_quantity)
          (λ w d e.
            debit_sound w.limit_price (multiplier_of multipliers w.option_id) w.remaining_quantity
              (working_order w.label) d e)
          working start empty in
      (owed, due, owed_are, due_are, omega (arith, total, before))

  tally_of_complete :
      (working : List WorkingPlacement) (h : Affordable working)
      → (is_empty (tally multipliers new working).gaps ≡ true)
        × ((tally multipliers new working).total ≡ sum h.owed + sum h.due)
  unfolding tally working_debit leg_debit
  tally_of_complete working h =
      let start : Tally = record { gaps = []; total = 0 } in
      let after = tally_all (working_debit multipliers) working start in
      let (empty, before) =
        tally_complete (working_debit multipliers)
          (λ w. IsDebit w.limit_price (multiplier_of multipliers w.option_id) w.remaining_quantity)
          (λ w d.
            debit_complete w.limit_price (multiplier_of multipliers w.option_id)
              w.remaining_quantity (working_order w.label) d)
          working h.owed start h.owed_are refl in
      let (none_left, total) =
        tally_complete (leg_debit multipliers new)
          (λ leg. IsDebit new.limit_price (multipliers leg.option_id) (whole_quantity new.quantity))
          (λ leg d.
            debit_complete new.limit_price (multipliers leg.option_id) (whole_quantity new.quantity)
              this_order d)
          new.legs h.due after h.due_are empty in
      (none_left, omega (arith, total, before))

  abbrev apart : List WorkingPlacement → Bool
  apart working = is_empty (keep_if (λ w. on_contract new.legs w.option_id) working)

  guards_of :
      (working : List WorkingPlacement)
      → (check_working multipliers account max_age as_of new working ≡ ok none) ↔ (
          (apart working ≡ true)
          × (all (λ leg. leg.closing) new.legs ≡ true)
          × (all (λ w. w.closing) working ≡ true)
          × ((cash_of account as_of max_age >>= λ cash.
                ok (verdict (tally multipliers new working) cash))
              ≡ ok none))
  unfolding check_working
  guards_of working =
      guards (apart working) (all (λ leg. leg.closing) new.legs) (all (λ w. w.closing) working) _ _
        _

  check_working-IsAffordable :
      (working : List WorkingPlacement)
      → (check_working multipliers account max_age as_of new working ≡ ok none) ↔ Affordable working
  check_working-IsAffordable working = (
    λ h.
        let (p, q, r, passed) = (guards_of working).0 h in
        let (c, is_cash, empty, le) =
          verdict-bind (tally multipliers new working) (cash_of account as_of max_age) passed in
        let (owed, due, owed_are, due_are, total) = tally_of_sound working empty in
        record {
          apart = (none_kept (λ w. on_contract new.legs w.option_id) working).0 p;
          new_closes = (all_iff (λ leg. leg.closing) new.legs).0 q;
          working_closes = (all_iff (λ w. w.closing) working).0 r;
          owed = owed;
          owed_are = owed_are;
          due = due;
          due_are = due_are;
          cash = c;
          cash_is = cash_of_sound account max_age as_of c is_cash;
          covered = omega (arith, total, le);
        },
    λ h.
        let (empty, total) = tally_of_complete working h in
        (guards_of working).1 (
          (none_kept (λ w. on_contract new.legs w.option_id) working).1 h.apart,
          (all_iff (λ leg. leg.closing) new.legs).1 h.new_closes,
          (all_iff (λ w. w.closing) working).1 h.working_closes,
          rw (cash_of_complete account max_age as_of h.cash h.cash_is) (
              ap ok (
                verdict-fits (tally multipliers new working) h.cash empty
                  (omega (arith, total, h.covered)))),
        ),
  )

  outer : List WorkingPlacement → ℕ → Result (Option Denial)
  outer working n =
      if ltb 0 n
      then ok (some Denial.in_flight)
      else if is_empty working
      then ok none
      else check_working multipliers account max_age as_of new working

  idle-IsAffordable :
      (working : List WorkingPlacement) (n : ℕ)
      → ltb 0 n ≡ false
      → ((if is_empty working
            then ok none
            else check_working multipliers account max_age as_of new working)
          ≡ ok none)
        ↔ ((n ≡ 0) × ((working ≡ []) ⊎ Affordable working))
  idle-IsAffordable [] n idle = (λ h. (ground arith, inl refl), λ p. refl)
  idle-IsAffordable (w ∷ ws) n idle =
      let iff = check_working-IsAffordable (w ∷ ws) in
      (λ h. (ground arith, inr (iff.0 h)), λ p. elim p.1 [ inl e ↦ absurd cc | inr a ↦ iff.1 a ])

  outer-IsAffordable :
      (working : List WorkingPlacement) (n : ℕ)
      → (outer working n ≡ ok none) ↔ ((n ≡ 0) × ((working ≡ []) ⊎ Affordable working))
  unfolding outer
  outer-IsAffordable working n = elim (Bool-cases (ltb 0 n)) [
    | inl busy ↦ rw busy (λ h. absurd cc, λ p. absurd (let z = p.0 in ground arith))
    | inr idle ↦ rw idle (idle-IsAffordable working n idle)
  ]

  -- At an aware time a placement passes exactly when no other one is in flight, and nothing is working
  -- or: it is on other contracts than the working orders, all orders are closes, the debit of each is known,
  -- and their sum is covered by the cash of a verified account snapshot that is fresh enough.
  pub check_concurrency-IsAffordable :
      (working : List WorkingPlacement) (in_flight now : ℕ)
      → as_of ≡ aware now
      → (check_concurrency multipliers account max_age as_of new working in_flight ≡ ok none)
        ↔ ((in_flight ≡ 0) × ((working ≡ []) ⊎ Affordable working))
  unfolding check_concurrency outer
  check_concurrency-IsAffordable working in_flight now e =
      rw (aware_bind as_of now (outer working in_flight) e) (outer-IsAffordable working in_flight)
