-- ===== src/Facts/Counted.antt =====
-- The sums of domain/facts_compute.py over what an account holds and has working, by what they count.
use wheelta_robinhood_agent.Common.{
  ℕ, ◌+◌, ◌*◌, ◌≡◌, ◌≢◌, refl, sym, ap, true, false, inl, inr, Bool-cases, Option, none, some, List,
  [], ◌∷◌, ◌==◌, ==_iff, arith,
}
use mathlib.Core.Path.{subst}
use wheelta_robinhood_agent.Enums.{OptionRight, call, put, same_right}
use wheelta_robinhood_agent.OrderWalk.{OrderSide, sell_to_open, buy_to_close, is_selling}
use wheelta_robinhood_agent.Facts.{
  ShareHolding, ShortOptionHolding, WorkingOrder, PositionsRead, OpenOrdersRead,
}
use wheelta_robinhood_agent.Facts.Reads.{Cover, add_cover, orders_cover, holdings_cover, cover}
use wheelta_robinhood_agent.Facts.Capacity.{shares_of, short_of, closing_of, cover_from}

-- The sum, over the elements that a predicate picks, of what each counts.
pub data SumOf {A : Type 0} (Picks : A → Type 0) (Counts : A → ℕ → Type 0)
    : List A → ℕ → Type 0 where
  no_more : SumOf Picks Counts [] 0
  picked :
      (x : A) (xs : List A) (n m : ℕ)
      → Picks x
      → Counts x n
      → SumOf Picks Counts xs m
      → SumOf Picks Counts (x ∷ xs) (n + m)
  passed_over :
      (x : A) (xs : List A) (m : ℕ)
      → ¬ Picks x
      → SumOf Picks Counts xs m
      → SumOf Picks Counts (x ∷ xs) m

skipped :
    {A : Type 0} {Picks : A → Type 0} {Counts : A → ℕ → Type 0} (x : A) (xs : List A) (m : ℕ)
    → ¬ Picks x
    → SumOf Picks Counts xs m
    → SumOf Picks Counts (x ∷ xs) (0 + m)
skipped {A} {Picks} {Counts} x xs m apart rest =
    let same : m ≡ 0 + m = omega arith in
    subst (SumOf Picks Counts (x ∷ xs)) same (passed_over x xs m apart rest)

-- The shares of a symbol.
abbrev pub IsOwned : ℕ → List ShareHolding → ℕ → Type 0
IsOwned symbol holdings n = SumOf (λ h. h.symbol ≡ symbol) (λ h k. k ≡ h.quantity) holdings n

pub shares_of-IsOwned :
    (symbol : ℕ) (hs : List ShareHolding) → IsOwned symbol hs (shares_of symbol hs)
shares_of-IsOwned symbol [] = no_more
shares_of-IsOwned symbol (h ∷ hs) = elim (Bool-cases (h.symbol == symbol)) [
  | inl same ↦ rw same (
      picked h hs h.quantity (shares_of symbol hs) ((==_iff h.symbol symbol).0 same) refl
        (shares_of-IsOwned symbol hs))
  | inr apart ↦ rw apart (
      skipped h hs (shares_of symbol hs) (λ e. let found = (==_iff h.symbol symbol).1 e in cc)
        (shares_of-IsOwned symbol hs))
]

-- The contracts of an instrument that are short.
abbrev pub IsShort : ℕ → List ShortOptionHolding → ℕ → Type 0
IsShort id holdings n =
    SumOf (λ h. h.broker_instrument_id ≡ id) (λ h k. k ≡ h.short_quantity) holdings n

pub short_of-IsShort : (id : ℕ) (hs : List ShortOptionHolding) → IsShort id hs (short_of id hs)
short_of-IsShort id [] = no_more
short_of-IsShort id (h ∷ hs) = elim (Bool-cases (h.broker_instrument_id == id)) [
  | inl same ↦ rw same (
      picked h hs h.short_quantity (short_of id hs) ((==_iff h.broker_instrument_id id).0 same) refl
        (short_of-IsShort id hs))
  | inr apart ↦ rw apart (
      skipped h hs (short_of id hs) (λ e. let found = (==_iff h.broker_instrument_id id).1 e in cc)
        (short_of-IsShort id hs))
]

-- What the working buys to close of an instrument have unfilled.
abbrev pub IsClosing : ℕ → List WorkingOrder → ℕ → Type 0
IsClosing id orders n =
    SumOf (λ o. (o.broker_instrument_id ≡ id) × (o.side ≡ buy_to_close))
      (λ o k. k ≡ o.unfilled_quantity) orders n

buys : (side : OrderSide) → is_selling side ≡ false → side ≡ buy_to_close
buys sell_to_open h = absurd cc
buys buy_to_close h = refl

sells : (side : OrderSide) → is_selling side ≡ true → side ≡ sell_to_open
sells sell_to_open h = refl
sells buy_to_close h = absurd cc

pub closing_of-IsClosing : (id : ℕ) (os : List WorkingOrder) → IsClosing id os (closing_of id os)
closing_of-IsClosing id [] = no_more
closing_of-IsClosing id (o ∷ os) =
    let rest = closing_of-IsClosing id os in
    elim (Bool-cases (o.broker_instrument_id == id)) [
      | inr apart ↦ rw apart (
          skipped o os (closing_of id os)
            (λ e. let found = (==_iff o.broker_instrument_id id).1 e.0 in cc) rest)
      | inl same ↦ elim (Bool-cases (is_selling o.side)) [
        | inl sold ↦
            rw (same, sold)
              (skipped o os (closing_of id os)
                (λ e. let bought = e.1 in let sold' = rw bought at sold in cc) rest)
        | inr bought ↦
            rw (same, bought)
              (picked o os o.unfilled_quantity (closing_of id os)
                ((==_iff o.broker_instrument_id id).0 same, buys o.side bought) refl rest)
      ]
    ]

-- The shares that a short contract, or a working sell to open, of one right on an underlying holds.
abbrev pub HeldShares : OptionRight → ℕ → List ShortOptionHolding → ℕ → Type 0
HeldShares right underlying holdings n =
    SumOf (λ h. (h.underlying ≡ underlying) × (h.right ≡ right))
      (λ h k. (m : ℕ) × ((h.multiplier ≡ some m) × (k ≡ m * h.short_quantity))) holdings n

abbrev pub WorkingShares : OptionRight → ℕ → List WorkingOrder → ℕ → Type 0
WorkingShares right underlying orders n =
    SumOf (λ o. (o.underlying ≡ underlying) × ((o.right ≡ right) × (o.side ≡ sell_to_open)))
      (λ o k. (m : ℕ) × ((o.multiplier ≡ some m) × (k ≡ m * o.unfilled_quantity))) orders n

same_right-eq : (a b : OptionRight) → same_right a b ≡ true → a ≡ b
same_right-eq put put h = refl
same_right-eq call call h = refl
same_right-eq put call h = absurd cc
same_right-eq call put h = absurd cc

same_right_refl : (a : OptionRight) → same_right a a ≡ true
same_right_refl put = refl
same_right_refl call = refl

add_cover-eq :
    (strike : ℕ) (multiplier : Option ℕ) (quantity : ℕ) (rest : Option Cover) (c : Cover)
    → add_cover strike multiplier quantity rest ≡ some c
    → (m : ℕ) × ((multiplier ≡ some m)
        × ((before : Cover) × ((rest ≡ some before) × (c.shares ≡ m * quantity + before.shares))))
add_cover-eq strike none quantity rest c h = absurd cc
add_cover-eq strike (some m) quantity none c h = absurd cc
add_cover-eq strike (some m) quantity (some before) c h =
    let made : Cover = record {
      collateral = strike * m * quantity + before.collateral;
      shares = m * quantity + before.shares;
    } in
    let same : made ≡ c = cc in (m, (refl, (before, (refl, sym (ap (λ x. x.shares) same)))))

right_apart : (a b : OptionRight) → same_right a b ≡ false → a ≢ b
right_apart a b h e = let same = same_right_refl b in let h' = rw e at h in cc

module _ (right : OptionRight) (u : ℕ) where
  orders_shares :
      (os : List WorkingOrder) (c : Cover)
      → orders_cover os right (some u) ≡ some c
      → WorkingShares right u os c.shares
  orders_shares [] c h =
      let made : Cover = record { collateral = 0; shares = 0 } in
      let same : made ≡ c = cc in rw⁻¹ same no_more
  orders_shares (o ∷ os) c h = elim (Bool-cases (u == o.underlying)) [
    | inr apart ↦
        let h' : orders_cover os right (some u) ≡ some c = rw apart at h in
        passed_over o os c.shares (λ e. let found = (==_iff u o.underlying).1 (sym e.0) in cc)
          (orders_shares os c h')
    | inl same ↦ elim (Bool-cases (same_right o.right right)) [
      | inr other ↦
          let h' : orders_cover os right (some u) ≡ some c = rw (same, other) at h in
          passed_over o os c.shares (λ e. right_apart o.right right other e.1.0)
            (orders_shares os c h')
      | inl like ↦ elim (Bool-cases (is_selling o.side)) [
        | inr bought ↦
            let h' : orders_cover os right (some u) ≡ some c = rw (same, like, bought) at h in
            passed_over o os c.shares
              (λ e. let sold = e.1.1 in let bought' = rw sold at bought in cc)
              (orders_shares os c h')
        | inl sold ↦
            let h' : add_cover o.strike o.multiplier o.unfilled_quantity
                  (orders_cover os right (some u))
                ≡ some c =
              rw (same, like, sold) at h in
            let (m, (verified, (before, (rest, total)))) =
              add_cover-eq o.strike o.multiplier o.unfilled_quantity
                (orders_cover os right (some u)) c h' in
            rw total (
              picked o os (m * o.unfilled_quantity) before.shares
                (
                  sym ((==_iff u o.underlying).0 same),
                  (same_right-eq o.right right like, sells o.side sold),
                )
                (m, (verified, refl)) (orders_shares os before rest))
      ]
    ]
  ]

  -- The shares of the holdings and those of the orders make up the whole.
  pub record IsCovered (holdings : List ShortOptionHolding) (orders : List WorkingOrder) (n : ℕ)
      : Type 0 where
    pub held : ℕ
    pub working : ℕ
    pub are_held : HeldShares right u holdings held
    pub are_working : WorkingShares right u orders working
    pub total : n ≡ held + working

  holdings_shares :
      (hs : List ShortOptionHolding) (os : List WorkingOrder) (c : Cover)
      → holdings_cover hs os right (some u) ≡ some c
      → IsCovered hs os c.shares
  holdings_shares [] os c h = record {
    held = 0;
    working = c.shares;
    are_held = no_more;
    are_working = orders_shares os c h;
    total = omega arith;
  }
  holdings_shares (s ∷ hs) os c h = elim (Bool-cases (u == s.underlying)) [
    | inr apart ↦
        let h' : holdings_cover hs os right (some u) ≡ some c = rw apart at h in
        let rest = holdings_shares hs os c h' in
        record {
          held = rest.held;
          working = rest.working;
          are_held =
              passed_over s hs rest.held
                (λ e. let found = (==_iff u s.underlying).1 (sym e.0) in cc) rest.are_held;
          are_working = rest.are_working;
          total = rest.total;
        }
    | inl same ↦ elim (Bool-cases (same_right s.right right)) [
      | inr other ↦
          let h' : holdings_cover hs os right (some u) ≡ some c = rw (same, other) at h in
          let rest = holdings_shares hs os c h' in
          record {
            held = rest.held;
            working = rest.working;
            are_held =
                passed_over s hs rest.held (λ e. right_apart s.right right other e.1) rest.are_held;
            are_working = rest.are_working;
            total = rest.total;
          }
      | inl like ↦
          let h' : add_cover s.strike s.multiplier s.short_quantity
                (holdings_cover hs os right (some u))
              ≡ some c =
            rw (same, like) at h in
          let (m, (verified, (before, (found, total)))) =
            add_cover-eq s.strike s.multiplier s.short_quantity
              (holdings_cover hs os right (some u)) c h' in
          let rest = holdings_shares hs os before found in
          record {
            held = m * s.short_quantity + rest.held;
            working = rest.working;
            are_held =
                picked s hs (m * s.short_quantity) rest.held
                  (sym ((==_iff u s.underlying).0 same), same_right-eq s.right right like)
                  (m, (verified, refl)) rest.are_held;
            are_working = rest.are_working;
            total = let counted = rest.total in omega (arith, total, counted);
          }
    ]
  ]

  -- Both reads are there, and the cover is the sum over them.
  pub cover-IsCovered :
      (read : Option PositionsRead) (orders : Option OpenOrdersRead) (c : Cover)
      → cover_from read orders right (some u) ≡ some c
      → (p : PositionsRead) × ((read ≡ some p)
          × ((q : OpenOrdersRead) × ((orders ≡ some q)
                × IsCovered p.short_options q.orders c.shares)))
  unfolding cover
  cover-IsCovered (some p) (some q) c h =
      (p, (refl, (q, (refl, holdings_shares p.short_options q.orders c h))))
  cover-IsCovered none orders c h = absurd cc
  cover-IsCovered (some p) none c h = absurd cc
