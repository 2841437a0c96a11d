-- ===== src/PretradeGate/Roles.antt =====
-- What an agent's role permits of a placement (`_role` of agent/pretrade_gate.py), from the run's recorded orders.
use wheelta_robinhood_agent.Common.{
  ℕ, ◌≡◌, ◌≢◌, refl, sym, ap₂, ◌∙◌, inl, inr, Bool-cases, Option, none, some, List, [], ◌∷◌, get_or,
}
use wheelta_robinhood_agent.Texts.{Text, codes, same_text, same_text-eq, same_text_refl}
use wheelta_robinhood_agent.OrderWalk.{OrderSide, sell_to_open, buy_to_close}
use wheelta_robinhood_agent.FactsRules.{CountSetting}
use wheelta_robinhood_agent.RoleGate.{OccSymbol, RunFill}
use wheelta_robinhood_agent.Pretrade.{PretradeRules}
use wheelta_robinhood_agent.PretradeGate.{
  Intent, PlacedOrder, Instrument, RunEvidence, side_of_text, side_of, or_symbol, symbol_of,
  looked_up, fill_with, fill_from, run_fills,
}

-- A count that is taken as 0 where it is not known.
abbrev pub Counts : Option ℕ → ℕ → Type 0
Counts none n = n ≡ 0
Counts (some quantity) n = n ≡ quantity

Counts-eq : (o : Option ℕ) (n : ℕ) → Counts o n → n ≡ get_or 0 o
Counts-eq none n h = h
Counts-eq (some quantity) n h = h

counted : (o : Option ℕ) → Counts o (get_or 0 o)
counted none = refl
counted (some quantity) = refl

-- The side of a recorded text, which is compared as it is.
pub data Sides : Text → Option OrderSide → Type 0 where
  opens : Sides (codes "sell_to_open") (some sell_to_open)
  closes : Sides (codes "buy_to_close") (some buy_to_close)
  is_other :
      (text : Text) → text ≢ codes "sell_to_open" → text ≢ codes "buy_to_close" → Sides text none

Sides-eq : (text : Text) (side : Option OrderSide) → Sides text side → side ≡ side_of_text text
Sides-eq _ _ opens = refl
Sides-eq _ _ closes = refl
Sides-eq _ _ (is_other text f g) = elim (Bool-cases (same_text text (codes "sell_to_open"))) [
  | inl is_open ↦ absurd (f (same_text-eq text (codes "sell_to_open") is_open))
  | inr not_open ↦ elim (Bool-cases (same_text text (codes "buy_to_close"))) [
    | inl is_close ↦ absurd (g (same_text-eq text (codes "buy_to_close") is_close))
    | inr not_close ↦ rw (not_open, not_close) refl
  ]
]

sided : (text : Text) → Sides text (side_of_text text)
sided text = elim (Bool-cases (same_text text (codes "sell_to_open"))) [
  | inl is_open ↦ rw (same_text-eq text (codes "sell_to_open") is_open) opens
  | inr not_open ↦ elim (Bool-cases (same_text text (codes "buy_to_close"))) [
    | inl is_close ↦ rw (same_text-eq text (codes "buy_to_close") is_close) closes
    | inr not_close ↦
        let f : text ≢ codes "sell_to_open" = λ e.
          let found = same_text_refl (codes "sell_to_open") in let other = rw e at not_open in cc in
        let g : text ≢ codes "buy_to_close" = λ e.
          let found = same_text_refl (codes "buy_to_close") in
          let other = rw e at not_close in cc in
        rw (not_open, not_close) (is_other text f g)
  ]
]

module _ (market_date : ℕ → ℕ) (rules : PretradeRules) (account_age : CountSetting)
    (evidence : RunEvidence) (now : ℕ) where
  -- The contract of an intent: the recorded one, or that of its instrument where the run read it.
  pub data HasSymbol (intent : Intent) : Option OccSymbol → Type 0 where
    recorded : (s : OccSymbol) → intent.occ_symbol ≡ some s → HasSymbol intent (some s)
    looked :
        (id : ℕ) (contract : Instrument)
        → intent.occ_symbol ≡ none
        → intent.broker_instrument_id ≡ some id
        → evidence.instrument id ≡ some contract
        → HasSymbol intent (some contract.occ_symbol)
    unread :
        (id : ℕ)
        → intent.occ_symbol ≡ none
        → intent.broker_instrument_id ≡ some id
        → evidence.instrument id ≡ none
        → HasSymbol intent none
    unnamed : intent.occ_symbol ≡ none → intent.broker_instrument_id ≡ none → HasSymbol intent none

  abbrev found_symbol : Intent → Option OccSymbol
  found_symbol intent =
      or_symbol intent.occ_symbol
        (looked_up market_date rules account_age evidence now intent.broker_instrument_id)

  HasSymbol-eq :
      (intent : Intent) (s : Option OccSymbol) → HasSymbol intent s → s ≡ found_symbol intent
  HasSymbol-eq intent _ (recorded s e) = rw e refl
  HasSymbol-eq intent _ (looked id contract e f g) = rw (e, f, g) refl
  HasSymbol-eq intent _ (unread id e f g) = rw (e, f, g) refl
  HasSymbol-eq intent _ (unnamed e f) = rw (e, f) refl

  symbol_looked :
      (intent : Intent) (id : ℕ) (found : Option Instrument)
      → intent.occ_symbol ≡ none
      → intent.broker_instrument_id ≡ some id
      → evidence.instrument id ≡ found
      → HasSymbol intent (symbol_of found)
  symbol_looked intent id none e f g = unread id e f g
  symbol_looked intent id (some contract) e f g = looked id contract e f g

  symbol_found :
      (intent : Intent) (own : Option OccSymbol) (id : Option ℕ)
      → intent.occ_symbol ≡ own
      → intent.broker_instrument_id ≡ id
      → HasSymbol intent (or_symbol own (looked_up market_date rules account_age evidence now id))
  symbol_found intent (some s) id e f = recorded s e
  symbol_found intent none none e f = unnamed e f
  symbol_found intent none (some id) e f = symbol_looked intent id (evidence.instrument id) e f refl

  -- The fills that the run's orders count as: a sell to open by its quantity, a buy to close by what filled
  -- of it, and any other order, or one whose intent or side is not recorded, not at all.
  pub data AreFills : List PlacedOrder → List RunFill → Type 0 where
    no_order : AreFills [] []
    no_intent :
        (o : PlacedOrder) (os : List PlacedOrder) (fills : List RunFill)
        → o.intent ≡ none
        → AreFills os fills
        → AreFills (o ∷ os) fills
    no_side :
        (o : PlacedOrder) (intent : Intent) (os : List PlacedOrder) (fills : List RunFill)
        → o.intent ≡ some intent
        → intent.side_raw ≡ none
        → AreFills os fills
        → AreFills (o ∷ os) fills
    another_side :
        (o : PlacedOrder) (intent : Intent) (text : Text) (os : List PlacedOrder)
        (fills : List RunFill)
        → o.intent ≡ some intent
        → intent.side_raw ≡ some text
        → Sides text none
        → AreFills os fills
        → AreFills (o ∷ os) fills
    opened :
        (o : PlacedOrder) (intent : Intent) (text : Text) (symbol : Option OccSymbol) (n : ℕ)
        (os : List PlacedOrder) (fills : List RunFill)
        → o.intent ≡ some intent
        → intent.side_raw ≡ some text
        → Sides text (some sell_to_open)
        → HasSymbol intent symbol
        → Counts intent.quantity n
        → AreFills os fills
        → AreFills
            (o ∷ os)
            (record { side = sell_to_open; occ_symbol = symbol; quantity = n } ∷ fills)
    closed :
        (o : PlacedOrder) (intent : Intent) (text : Text) (symbol : Option OccSymbol) (n : ℕ)
        (os : List PlacedOrder) (fills : List RunFill)
        → o.intent ≡ some intent
        → intent.side_raw ≡ some text
        → Sides text (some buy_to_close)
        → HasSymbol intent symbol
        → Counts o.filled_quantity n
        → AreFills os fills
        → AreFills
            (o ∷ os)
            (record { side = buy_to_close; occ_symbol = symbol; quantity = n } ∷ fills)

  abbrev run_counted : List PlacedOrder → List RunFill
  run_counted os = run_fills market_date rules account_age evidence now os

  -- The fill of an order of which the intent and the side are known.
  step_side :
      (o : PlacedOrder) (intent : Intent) (text : Text) (side : Option OrderSide)
      (rest : List RunFill)
      → o.intent ≡ some intent
      → intent.side_raw ≡ some text
      → Sides text side
      → fill_from market_date rules account_age evidence now o.filled_quantity o.intent rest
        ≡ fill_with market_date rules account_age evidence now o.filled_quantity intent side rest
  step_side o intent text side rest e f h = rw (e, f, Sides-eq text side h) refl

  pub AreFills-eq :
      (os : List PlacedOrder) (fills : List RunFill) → AreFills os fills → fills ≡ run_counted os
  AreFills-eq _ _ no_order = refl
  AreFills-eq _ _ (no_intent o os fills e h) = rw e (AreFills-eq os fills h)
  AreFills-eq _ _ (no_side o intent os fills e f h) = rw (e, f) (AreFills-eq os fills h)
  AreFills-eq _ _ (another_side o intent text os fills e f h rest) =
      AreFills-eq os fills rest ∙ sym (step_side o intent text none (run_counted os) e f h)
  AreFills-eq _ _ (opened o intent text symbol n os fills e f h named count rest) =
      ap₂ (λ fill others. fill ∷ others)
        (ap₂ (λ s k. record { side = sell_to_open; occ_symbol = s; quantity = k })
          (HasSymbol-eq intent symbol named) (Counts-eq intent.quantity n count))
        (AreFills-eq os fills rest)
      ∙ sym (step_side o intent text (some sell_to_open) (run_counted os) e f h)
  AreFills-eq _ _ (closed o intent text symbol n os fills e f h named count rest) =
      ap₂ (λ fill others. fill ∷ others)
        (ap₂ (λ s k. record { side = buy_to_close; occ_symbol = s; quantity = k })
          (HasSymbol-eq intent symbol named) (Counts-eq o.filled_quantity n count))
        (AreFills-eq os fills rest)
      ∙ sym (step_side o intent text (some buy_to_close) (run_counted os) e f h)

  filled_side :
      (o : PlacedOrder) (intent : Intent) (text : Text) (os : List PlacedOrder)
      (side : Option OrderSide)
      → o.intent ≡ some intent
      → intent.side_raw ≡ some text
      → Sides text side
      → AreFills os (run_counted os)
      → AreFills (o ∷ os) (
          fill_with market_date rules account_age evidence now o.filled_quantity intent side
            (run_counted os))
  filled_side o intent text os none e f h rest =
      another_side o intent text os (run_counted os) e f h rest
  filled_side o intent text os (some sell_to_open) e f h rest =
      opened o intent text (found_symbol intent) (get_or 0 intent.quantity) os (run_counted os) e f
        h (symbol_found intent intent.occ_symbol intent.broker_instrument_id refl refl)
        (counted intent.quantity) rest
  filled_side o intent text os (some buy_to_close) e f h rest =
      closed o intent text (found_symbol intent) (get_or 0 o.filled_quantity) os (run_counted os) e
        f h (symbol_found intent intent.occ_symbol intent.broker_instrument_id refl refl)
        (counted o.filled_quantity) rest

  filled_text :
      (o : PlacedOrder) (intent : Intent) (os : List PlacedOrder) (side_raw : Option Text)
      → o.intent ≡ some intent
      → intent.side_raw ≡ side_raw
      → AreFills os (run_counted os)
      → AreFills (o ∷ os) (
          fill_with market_date rules account_age evidence now o.filled_quantity intent
            (side_of side_raw)
            (run_counted os))
  filled_text o intent os none e f rest = no_side o intent os (run_counted os) e f rest
  filled_text o intent os (some text) e f rest =
      filled_side o intent text os (side_of_text text) e f (sided text) rest

  filled_intent :
      (o : PlacedOrder) (os : List PlacedOrder) (intent : Option Intent)
      → o.intent ≡ intent
      → AreFills os (run_counted os)
      → AreFills (o ∷ os) (
          fill_from market_date rules account_age evidence now o.filled_quantity intent
            (run_counted os))
  filled_intent o os none e rest = no_intent o os (run_counted os) e rest
  filled_intent o os (some intent) e rest = filled_text o intent os intent.side_raw e refl rest

  pub run_counted-AreFills : (os : List PlacedOrder) → AreFills os (run_counted os)
  run_counted-AreFills [] = no_order
  run_counted-AreFills (o ∷ os) = filled_intent o os o.intent refl (run_counted-AreFills os)
