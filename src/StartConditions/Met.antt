-- ===== src/StartConditions/Met.antt =====
-- When the Sell Options agent starts (domain/start_conditions.py).
use wheelta_robinhood_agent.Common.{
  ℕ, ◌+◌, ◌*◌, ◌≤◌, ◌≡◌, refl, ◌↔◌, ◌⊎◌, inl, inr, true, false, Bool-cases, Option, none, some,
  List, [], ◌∷◌, map, keep_if, is_empty, leb, ◌==◌, if◌then◌else◌, arith, ==_iff, ap,
}
use wheelta_robinhood_agent.StartConditions.{
  met, ShortRow, Shares, Entry, get, put, reserve, covers, insert, sorted, coverable_symbols,
  cash_meets, lots, positions, evaluate_sell_start, shares_per_contract,
}

-- The shares of a symbol that the short rows could reserve.
abbrev pub owed : List ShortRow → ℕ → ℕ
owed [] symbol = 0
owed (row ∷ rows) symbol =
    (if row.underlying == symbol then row.short_quantity * row.multiplier else 0) + owed rows symbol

get-put :
    (es : List Entry) (key value other : ℕ)
    → get (put key value es) other ≡ (if key == other then value else get es other)
get-put [] key value other = refl
get-put (e ∷ es) key value other =
    let ih = get-put es key value other in
    elim (Bool-cases (e.key == key)) [
      | inl same ↦ elim (Bool-cases (key == other)) [
        | inl hit ↦ rw (same, hit) refl
        | inr miss ↦
            let miss' : (e.key == other) ≡ false = ground arith in rw (same, miss, miss') refl
      ]
      | inr apart ↦ elim (Bool-cases (e.key == other)) [
        | inl first ↦
            let miss : (key == other) ≡ false = ground arith in rw (apart, first, miss) refl
        | inr next ↦ rw (apart, next) ih
      ]
    ]

reserve-owed :
    (rows : List ShortRow) (es : List Entry) (symbol : ℕ)
    → get (reserve rows es) symbol ≡ get es symbol + owed rows symbol
unfolding reserve
reserve-owed [] es symbol = omega arith
reserve-owed (row ∷ rows) es symbol =
    let reserved : ℕ = get es row.underlying + row.short_quantity * row.multiplier in
    let rest = reserve-owed rows (put row.underlying reserved es) symbol in
    let here = get-put es row.underlying reserved symbol in
    elim (Bool-cases (row.underlying == symbol)) [
      | inl same ↦
          let is_symbol : row.underlying ≡ symbol = (==_iff row.underlying symbol).0 same in
          let here' = rw same at here in
          let at_symbol : get es row.underlying ≡ get es symbol = ap (get es) is_symbol in
          rw same (omega (arith, rest, here', at_symbol))
      | inr other ↦ let here' = rw other at here in rw other (omega (arith, rest, here'))
    ]

-- The held shares of the symbol leave a contract's worth beyond what the short rows could reserve.
abbrev pub IsCoverable : List ShortRow → Shares → Type 0
IsCoverable rows h = owed rows h.symbol + shares_per_contract ≤ h.quantity

abbrev pub SomeCoverable : List ShortRow → List Shares → Type 0
SomeCoverable rows [] = ⊥
SomeCoverable rows (h ∷ shares) = IsCoverable rows h ⊎ SomeCoverable rows shares

module _ (rows : List ShortRow) where
  covers-IsCoverable : (h : Shares) → (covers (reserve rows []) h ≡ true) ↔ IsCoverable rows h
  covers-IsCoverable h =
      let total = reserve-owed rows [] h.symbol in (λ c. ground arith, λ c. ground arith)

  kept-SomeCoverable :
      (shares : List Shares)
      → (is_empty (keep_if (covers (reserve rows [])) shares) ≡ false) ↔ SomeCoverable rows shares
  kept-SomeCoverable [] = (λ h. cc, λ h. elim h [ ])
  kept-SomeCoverable (h ∷ shares) =
      let test = covers-IsCoverable h in
      let rest = kept-SomeCoverable shares in
      elim (Bool-cases (covers (reserve rows []) h)) [
        | inl kept ↦ rw (kept, keep_if) (λ x. inl (test.0 kept), λ x. refl)
        | inr dropped ↦
            rw (dropped, keep_if)
              (
                λ x. inr (rest.0 x),
                λ x. elim x [ inl c ↦ absurd (let c' = test.1 c in cc) | inr s ↦ rest.1 s ],
              )
      ]

insert-is_empty : (x : ℕ) (ys : List ℕ) → is_empty (insert x ys) ≡ false
insert-is_empty x [] = refl
insert-is_empty x (y ∷ ys) = elim (Bool-cases (leb x y)) [
  | inl before ↦ rw before refl
  | inr after ↦ rw after refl
]

sorted-is_empty :
    (shares : List Shares) → is_empty (sorted (map (λ h. h.symbol) shares)) ≡ is_empty shares
sorted-is_empty [] = refl
sorted-is_empty (h ∷ shares) = insert-is_empty h.symbol (sorted (map (λ h. h.symbol) shares))

coverable_symbols-SomeCoverable :
    (shares : List Shares) (rows : List ShortRow)
    → (is_empty (coverable_symbols shares rows) ≡ false) ↔ SomeCoverable rows shares
unfolding coverable_symbols
coverable_symbols-SomeCoverable shares rows =
    rw (sorted-is_empty (keep_if (covers (reserve rows [])) shares))
      (kept-SomeCoverable rows shares)

-- The cash covers the owner's minimum.
pub record HasCash (cash : Option ℕ) (minimum : ℕ) : Type 0 where
  pub amount : ℕ
  pub cash_is : cash ≡ some amount
  pub enough : minimum ≤ amount

-- Both reads of positions are complete, and a symbol has a lot that no short row could reserve.
pub record HasLot (shares : Option (List Shares)) (short_rows : Option (List ShortRow))
    : Type 0 where
  pub held : List Shares
  pub rows : List ShortRow
  pub held_are : shares ≡ some held
  pub rows_are : short_rows ≡ some rows
  pub some_lot : SomeCoverable rows held

cash_meets-HasCash :
    (cash : Option ℕ) (minimum : ℕ) → (cash_meets cash minimum ≡ true) ↔ HasCash cash minimum
cash_meets-HasCash none minimum = (λ h. absurd cc, λ h. absurd (let e = h.cash_is in cc))
cash_meets-HasCash (some amount) minimum = (
  λ h. record { amount = amount; cash_is = refl; enough = ground arith },
  λ h. let same : amount ≡ h.amount = cc h.cash_is in let enough = h.enough in ground arith,
)

module _ (cash : Option ℕ) (minimum : ℕ) where
  lots-met :
      (short_rows : Option (List ShortRow)) (c : Option ℕ) (symbols : List ℕ)
      → ((lots cash minimum short_rows c symbols).outcome ≡ met) ↔ (is_empty symbols ≡ false)
  lots-met short_rows c (x ∷ xs) = (λ h. refl, λ h. refl)
  lots-met short_rows none [] = (λ h. absurd cc, λ h. absurd cc)
  lots-met short_rows (some c) [] = (λ h. absurd cc, λ h. absurd cc)

  positions-HasLot :
      (shares : Option (List Shares)) (short_rows : Option (List ShortRow))
      → ((positions cash minimum shares short_rows).outcome ≡ met) ↔ HasLot shares short_rows
  positions-HasLot none short_rows = (λ h. absurd cc, λ h. absurd (let e = h.held_are in cc))
  positions-HasLot (some held) none = (λ h. absurd cc, λ h. absurd (let e = h.rows_are in cc))
  positions-HasLot (some held) (some rows) =
      let found = coverable_symbols-SomeCoverable held rows in
      let met_iff = lots-met (some rows) cash (coverable_symbols held rows) in
      (
        λ h. record {
          held = held;
          rows = rows;
          held_are = refl;
          rows_are = refl;
          some_lot = found.0 (met_iff.0 h);
        },
        λ h.
            let rows_is : rows ≡ h.rows = cc h.rows_are in
            let held_is : held ≡ h.held = cc h.held_are in
            met_iff.1 (found.1 (rw (rows_is, held_is) h.some_lot)),
      )

  -- The Sell Options agent's condition is met exactly when the settled cash covers the owner's minimum, or both
  -- reads of positions are complete and some symbol has 100 shares beyond what its short rows could
  -- reserve.
  pub evaluate_sell_start-met :
      (shares : Option (List Shares)) (short_rows : Option (List ShortRow))
      → ((evaluate_sell_start cash minimum shares short_rows).outcome ≡ met)
        ↔ (HasCash cash minimum ⊎ HasLot shares short_rows)
  unfolding evaluate_sell_start
  evaluate_sell_start-met shares short_rows =
      let test = cash_meets-HasCash cash minimum in
      let lot = positions-HasLot shares short_rows in
      elim (Bool-cases (cash_meets cash minimum)) [
        | inl enough ↦ rw enough (λ h. inl (test.0 enough), λ h. refl)
        | inr short ↦ rw short (
          λ h. inr (lot.0 h),
          λ h. elim h [ inl c ↦ absurd (let c' = test.1 c in cc) | inr l ↦ lot.1 l ],
        )
      ]
