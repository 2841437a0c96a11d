-- ===== src/StartConditions.antt =====
-- domain/start_conditions.py: whether an agent's session starts. A symbol is a number, in the order of the texts;
-- money is a whole number of a fixed unit; the reason is kept as its kind.
pub mod Met
mod Tests
use wheelta_robinhood_agent.Common.{
  ℕ, ◌+◌, ◌*◌, ◌≡◌, Bool, true, false, not, Option, none, some, List, [], ◌∷◌, map, keep_if,
  is_empty, length, ltb, leb, ◌==◌, if◌then◌else◌,
}
use wheelta_robinhood_agent.RoleGate.{AgentRole, close, sell}

-- `SHARES_PER_CONTRACT`
abbrev pub shares_per_contract : ℕ
shares_per_contract = 100

pub data StartOutcome : Type 0 where
  met not_met unavailable unchecked : StartOutcome

-- `STARTS_SESSION`
abbrev pub starts_session : StartOutcome → Bool
starts_session met = true
starts_session unchecked = true
starts_session _ = false

pub record ShortRow : Type 0 where
  pub underlying : ℕ
  pub short_quantity : ℕ
  pub multiplier : ℕ

pub record Shares : Type 0 where
  pub symbol : ℕ
  pub quantity : ℕ

pub data StartReason : Type 0 where
  no_positions_read no_shorts shorts_held not_checked : StartReason
  cash_suffices cash_short_and_no_read shares_suffice cash_unknown_no_lot cash_short_no_lot :
      StartReason

pub record StartCondition : Type 0 where
  pub role : AgentRole
  pub outcome : StartOutcome
  pub reason : StartReason
  pub short_positions : Option ℕ
  pub settled_cash_usd : Option ℕ
  pub min_settled_cash_usd : Option ℕ
  pub coverable : Option (List ℕ)

abbrev bare : AgentRole → StartOutcome → StartReason → Option ℕ → StartCondition
bare role outcome reason short_positions = record {
  role = role;
  outcome = outcome;
  reason = reason;
  short_positions = short_positions;
  settled_cash_usd = none;
  min_settled_cash_usd = none;
  coverable = none;
}

unfoldable pub evaluate_close_start : Option (List ShortRow) → StartCondition
evaluate_close_start none = bare close unavailable no_positions_read none
evaluate_close_start (some []) = bare close not_met no_shorts (some 0)
evaluate_close_start (some (row ∷ rows)) = bare close met shorts_held (some (length (row ∷ rows)))

unfoldable pub unchecked_start : AgentRole → StartCondition
unchecked_start role = bare role unchecked not_checked none

-- A key of the dictionary `reserved` with its value.
pub record Entry : Type 0 where
  pub key : ℕ
  pub value : ℕ

-- `reserved.get(key, 0)`
abbrev pub get : List Entry → ℕ → ℕ
get [] key = 0
get (e ∷ es) key = if e.key == key then e.value else get es key

-- `reserved[key] = value`
abbrev pub put : ℕ → ℕ → List Entry → List Entry
put key value [] = record { key = key; value = value } ∷ []
put key value (e ∷ es) =
    if e.key == key then record { key = key; value = value } ∷ es else e ∷ put key value es

-- The loop over the short rows.
unfoldable pub reserve : List ShortRow → List Entry → List Entry
reserve [] reserved = reserved
reserve (row ∷ rows) reserved = reserve rows (
    put row.underlying (get reserved row.underlying + row.short_quantity * row.multiplier) reserved)

abbrev covers : List Entry → Shares → Bool
covers reserved h = leb (get reserved h.symbol + shares_per_contract) h.quantity

-- `sorted`
abbrev insert : ℕ → List ℕ → List ℕ
insert x [] = x ∷ []
insert x (y ∷ ys) = if leb x y then x ∷ y ∷ ys else y ∷ insert x ys

abbrev pub sorted : List ℕ → List ℕ
sorted [] = []
sorted (x ∷ xs) = insert x (sorted xs)

unfoldable pub coverable_symbols : List Shares → List ShortRow → List ℕ
unfolding reserve
coverable_symbols shares short_rows =
    sorted (map (λ h. h.symbol) (keep_if (covers (reserve short_rows [])) shares))

abbrev pub cash_meets : Option ℕ → ℕ → Bool
cash_meets none minimum = false
cash_meets (some cash) minimum = leb minimum cash

abbrev rows_read : Option (List ShortRow) → Option ℕ
rows_read none = none
rows_read (some rows) = some (length rows)

module _ (settled_cash_usd : Option ℕ) (min_settled_cash_usd : ℕ) where
  module _ (short_rows : Option (List ShortRow)) where
    -- `result`
    abbrev sell_result : StartOutcome → StartReason → Option (List ℕ) → StartCondition
    sell_result outcome reason symbols = record {
      role = sell;
      outcome = outcome;
      reason = reason;
      short_positions = rows_read short_rows;
      settled_cash_usd = settled_cash_usd;
      min_settled_cash_usd = some min_settled_cash_usd;
      coverable = symbols;
    }

    -- The end of `evaluate_sell_start`, by the symbols that can be covered.
    abbrev lots : Option ℕ → List ℕ → StartCondition
    lots cash (x ∷ xs) = sell_result met shares_suffice (some (x ∷ xs))
    lots none [] = sell_result unavailable cash_unknown_no_lot (some [])
    lots (some cash) [] = sell_result not_met cash_short_no_lot (some [])

  -- Both reads of positions, where both are complete.
  abbrev positions : Option (List Shares) → Option (List ShortRow) → StartCondition
  positions none rows = sell_result rows unavailable cash_short_and_no_read none
  positions (some shares) none = sell_result none unavailable cash_short_and_no_read none
  positions (some shares) (some rows) =
      lots (some rows) settled_cash_usd (coverable_symbols shares rows)

  unfoldable pub evaluate_sell_start :
      Option (List Shares) → Option (List ShortRow) → StartCondition
  unfolding coverable_symbols
  evaluate_sell_start shares short_rows =
      if cash_meets settled_cash_usd min_settled_cash_usd
      then sell_result short_rows met cash_suffices none
      else positions shares short_rows
