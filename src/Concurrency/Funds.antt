-- ===== src/Concurrency/Funds.antt =====
-- The debits and the cash that domain/order_concurrency.py compares (`_debit`, `_cash`).
use wheelta_robinhood_agent.Common.{
  ℕ, ◌+◌, ◌*◌, ◌≡◌, refl, ap, ◌∙◌, >>=-eq-ok, Bool, true, false, Option, none, some, List, [], ◌∷◌,
  ◌++◌, ◌⊎◌, inl, inr, ℤ, pos, negsuc, Result, ok, DateTime, is_empty, sum, if◌then◌else◌, arith,
  ok-injective,
}
use wheelta_robinhood_agent.Sanity.{is_fresh}
use wheelta_robinhood_agent.Concurrency.{
  CountSetting, marker, count, no_limit, unset, agent_discretion, AccountSnapshot, Subject, Gap,
  debit, reported, aged, cash_of, Tally, add_debit, tally_all,
}

-- The debit of a close: its limit price, multiplier and quantity are all known.
pub record IsDebit (price multiplier : Option ℕ) (quantity : Option ℤ) (d : ℕ) : Type 0 where
  pub p : ℕ
  pub m : ℕ
  pub n : ℕ
  pub price_is : price ≡ some p
  pub multiplier_is : multiplier ≡ some m
  pub quantity_is : quantity ≡ some (pos n)
  pub product : d ≡ p * m * n

pub debit_sound :
    (price multiplier : Option ℕ) (quantity : Option ℤ) (what : Subject) (d : ℕ)
    → debit price multiplier quantity what ≡ inl d
    → IsDebit price multiplier quantity d
unfolding debit
debit_sound none m q what d h = absurd cc
debit_sound (some p) none q what d h = absurd cc
debit_sound (some p) (some m) none what d h = absurd cc
debit_sound (some p) (some m) (some (negsuc n)) what d h = absurd cc
debit_sound (some p) (some m) (some (pos n)) what d h = record {
  p = p;
  m = m;
  n = n;
  price_is = refl;
  multiplier_is = refl;
  quantity_is = refl;
  product = cc;
}

pub debit_complete :
    (price multiplier : Option ℕ) (quantity : Option ℤ) (what : Subject) (d : ℕ)
    → IsDebit price multiplier quantity d
    → debit price multiplier quantity what ≡ inl d
unfolding debit
debit_complete price multiplier quantity what d h =
    rw (h.price_is, h.multiplier_is, h.quantity_is, h.product) refl

empty_of_append : (xs : List Gap) (gap : Gap) → is_empty (xs ++ (gap ∷ [])) ≡ false
empty_of_append [] gap = refl
empty_of_append (x ∷ xs) gap = refl

-- Each element has its amount.
abbrev pub Amounts : {A : Type 0} → (A → ℕ → Type 0) → List A → List ℕ → Type 0
Amounts P [] [] = Unit
Amounts P [] (d ∷ ds) = ⊥
Amounts P (x ∷ xs) [] = ⊥
Amounts P (x ∷ xs) (d ∷ ds) = P x d × Amounts P xs ds

module _ {A : Type 0} (f : A → ℕ ⊎ Gap) (P : A → ℕ → Type 0) where
  -- The tally of the list is t', with no gaps: nor were there before, and the amounts were added.
  abbrev pub Adds : List A → Tally → Tally → Type 0
  Adds xs t t' =
      (is_empty t.gaps ≡ true) × (ds : List ℕ) × Amounts P xs ds × (t'.total ≡ t.total + sum ds)

  module _ (sound : (x : A) (d : ℕ) → f x ≡ inl d → P x d) where
    tally_from :
        (x : A) (xs : List A) (t t' : Tally) (r : ℕ ⊎ Gap)
        → f x ≡ r
        → Adds xs (add_debit r t) t'
        → Adds (x ∷ xs) t t'
    tally_from x xs t t' (inl d) e (empty, ds, amounts, total) =
        (empty, d ∷ ds, (sound x d e, amounts), omega (arith, total))
    tally_from x xs t t' (inr gap) e (empty, ds, amounts, total) =
        absurd (let full = empty_of_append t.gaps gap in cc)

    pub tally_sound :
        (xs : List A) (t : Tally)
        → is_empty (tally_all f xs t).gaps ≡ true
        → Adds xs t (tally_all f xs t)
    unfolding tally_all
    tally_sound [] t h = (h, [], tt, omega arith)
    tally_sound (x ∷ xs) t h =
        tally_from x xs t (tally_all f xs (add_debit (f x) t)) (f x) refl
          (tally_sound xs (add_debit (f x) t) h)

  module _ (complete : (x : A) (d : ℕ) → P x d → f x ≡ inl d) where
    tally_cons :
        (x : A) (xs : List A) (t : Tally) (d : ℕ)
        → f x ≡ inl d
        → tally_all f (x ∷ xs) t ≡ tally_all f xs (add_debit (inl d) t)
    unfolding tally_all
    tally_cons x xs t d e = ap (λ r. tally_all f xs (add_debit r t)) e

    tally_nil :
        (t : Tally)
        → is_empty t.gaps ≡ true
        → (is_empty (tally_all f [] t).gaps ≡ true) × ((tally_all f [] t).total ≡ t.total + 0)
    unfolding tally_all
    tally_nil t h = (h, omega arith)

    pub tally_complete :
        (xs : List A) (ds : List ℕ) (t : Tally)
        → Amounts P xs ds
        → is_empty t.gaps ≡ true
        → (is_empty (tally_all f xs t).gaps ≡ true) × ((tally_all f xs t).total ≡ t.total + sum ds)
    tally_complete [] [] t a h = tally_nil t h
    tally_complete [] (d ∷ ds) t a h = elim a [ ]
    tally_complete (x ∷ xs) [] t a h = elim a [ ]
    tally_complete (x ∷ xs) (d ∷ ds) t a h =
        let (empty, total) = tally_complete xs ds (add_debit (inl d) t) a.1 h in
        rw (tally_cons x xs t d (complete x d a.0)) (empty, omega (arith, total))

-- Verified cash of this run's snapshot, which is fresh where an age is set.
pub record IsCash (account : Option AccountSnapshot) (max_age : CountSetting) (as_of : DateTime)
    (cash : ℕ) : Type 0 where
  pub snapshot : AccountSnapshot
  pub account_is : account ≡ some snapshot
  pub verified : snapshot.agentic_verified ≡ true
  pub cash_is : snapshot.available_settled_cash_usd ≡ some cash
  pub fresh :
      (max_age ≡ marker no_limit)
      ⊎ ((n : ℕ) × (max_age ≡ count n) × (is_fresh (some snapshot.as_of) as_of n ≡ ok true))

reported_sound : (cash : Option ℕ) (c : ℕ) → reported cash ≡ inl c → cash ≡ some c
reported_sound none c h = absurd cc
reported_sound (some d) c h = cc

module _ (s : AccountSnapshot) (n : ℕ) (now : DateTime) (cash : ℕ)
    (v : s.agentic_verified ≡ true) where
  aged_from :
      (fresh : Bool)
      → is_fresh (some s.as_of) now n ≡ ok fresh
      → (if fresh then reported s.available_settled_cash_usd else inr Gap.snapshot_old) ≡ inl cash
      → IsCash (some s) (count n) now cash
  aged_from true e h = record {
    snapshot = s;
    account_is = refl;
    verified = v;
    cash_is = reported_sound s.available_settled_cash_usd cash h;
    fresh = inr (n, refl, e);
  }
  aged_from false e h = absurd cc

aged_sound :
    (max_age : CountSetting) (s : AccountSnapshot) (now : DateTime) (cash : ℕ)
    → s.agentic_verified ≡ true
    → aged max_age s now ≡ ok (inl cash)
    → IsCash (some s) max_age now cash
unfolding aged
aged_sound (marker no_limit) s now cash v h = record {
  snapshot = s;
  account_is = refl;
  verified = v;
  cash_is = reported_sound s.available_settled_cash_usd cash (ok-injective h);
  fresh = inl refl;
}
aged_sound (marker unset) s now cash v h = absurd cc
aged_sound (marker agent_discretion) s now cash v h = absurd cc
aged_sound (count n) s now cash v h =
    let (fresh, e, then_) =
      >>=-eq-ok (is_fresh (some s.as_of) now n)
        (λ fresh.
          ok (if fresh then reported s.available_settled_cash_usd else inr Gap.snapshot_old))
        h in
    aged_from s n now cash v fresh e (ok-injective then_)

aged_complete :
    (max_age : CountSetting) (s : AccountSnapshot) (now : DateTime) (cash : ℕ)
    → s.available_settled_cash_usd ≡ some cash
    → (max_age ≡ marker no_limit)
      ⊎ ((n : ℕ) × (max_age ≡ count n) × (is_fresh (some s.as_of) now n ≡ ok true))
    → aged max_age s now ≡ ok (inl cash)
unfolding aged
aged_complete max_age s now cash c (inl none_set) = rw (none_set, c) refl
aged_complete max_age s now cash c (inr (n, set, fresh)) = rw (set, fresh, c) refl

checked-true : (b : Bool) (x y : Result (ℕ ⊎ Gap)) → b ≡ true → (if b then x else y) ≡ x
checked-true true x y h = refl
checked-true false x y h = absurd cc

checked-inl :
    (b : Bool) (x : Result (ℕ ⊎ Gap)) (gap : Gap) (cash : ℕ)
    → (if b then x else ok (inr gap)) ≡ ok (inl cash)
    → (b ≡ true) × (x ≡ ok (inl cash))
checked-inl true x gap cash h = (refl, h)
checked-inl false x gap cash h = absurd cc

module _ (account : Option AccountSnapshot) (max_age : CountSetting) (as_of : DateTime)
    (cash : ℕ) where
  pub cash_of_complete :
      IsCash account max_age as_of cash → cash_of account as_of max_age ≡ ok (inl cash)
  unfolding cash_of
  cash_of_complete h =
      let s = h.snapshot in
      rw h.account_is (
        checked-true s.agentic_verified (aged max_age s as_of) (ok (inr Gap.not_verified))
          h.verified
        ∙ aged_complete max_age s as_of cash h.cash_is h.fresh)

pub cash_of_sound :
    (account : Option AccountSnapshot) (max_age : CountSetting) (as_of : DateTime) (cash : ℕ)
    → cash_of account as_of max_age ≡ ok (inl cash)
    → IsCash account max_age as_of cash
unfolding cash_of
cash_of_sound none max_age as_of cash h = absurd cc
cash_of_sound (some s) max_age as_of cash h =
    let (v, checked) =
      checked-inl s.agentic_verified (aged max_age s as_of) Gap.not_verified cash h in
    aged_sound max_age s as_of cash v checked
