-- ===== src/PretradeGate/Input.antt =====
-- What the gate before a placement (agent/pretrade_gate.py) reads, with the parsing of the legs and `_working`. The input
-- comes decoded, a label as it is printed, and quantities are not negative.
use wheelta_robinhood_agent.Common.{
  ℕ, Bool, true, false, Option, none, some, List, [], ◌∷◌, ◌⊎◌, inl, inr, ◌==◌, if◌then◌else◌,
  get_or, ℤ, pos, of_diff,
}
use wheelta_robinhood_agent.Texts.{Text, codes, same_text, lowered}
use wheelta_robinhood_agent.OrderWalk.{OrderSide, sell_to_open, buy_to_close}
use wheelta_robinhood_agent.RoleGate.{OccSymbol, RoleDenial}
use wheelta_robinhood_agent.Concurrency.{PlacementLeg, WorkingPlacement, AccountSnapshot, Denial}
use wheelta_robinhood_agent.Pretrade.{Contract, LegQuote, Spot, LegValidation}

pub data SideText : Type 0 where
  buy_text sell_text other_side : SideText

pub data EffectText : Type 0 where
  open_text close_text other_effect : EffectText

pub record LegInput : Type 0 where
  pub side : Option SideText
  pub position_effect : Option EffectText
  pub option_id : Option ℕ

-- The tool's input; a leg that is no object is none, and so are legs that are no list.
pub record ToolInput : Type 0 where
  pub legs : Option (List (Option LegInput))
  pub quantity : Option ℕ
  pub price : Option ℕ

-- What is read of an `OrderIntent`.
pub record Intent : Type 0 where
  pub broker_instrument_id : Option ℕ
  pub side_raw : Option Text
  pub occ_symbol : Option OccSymbol
  pub quantity : Option ℕ
  pub limit_price : Option ℕ

-- What is read of an `OrderRecord`.
pub record PlacedOrder : Type 0 where
  pub label : ℕ
  pub intent : Option Intent
  pub filled_quantity : Option ℕ

pub record WalkInProgress : Type 0 where
  pub job_id : ℕ
  pub option_id : ℕ
  pub closing : Bool
  pub remaining_quantity : ℕ
  pub worst_price : ℕ

pub record PlacementState : Type 0 where
  pub unresolved : List PlacedOrder
  pub placements_in_flight : ℕ
  pub active_jobs : List WalkInProgress

-- What is read of an `OptionInstrument`.
pub record Instrument : Type 0 where
  pub contract : Contract
  pub occ_symbol : OccSymbol
  pub underlying : ℕ
  pub multiplier : Option ℕ

pub record RunEvidence : Type 0 where
  pub instrument : ℕ → Option Instrument
  pub option_quote : ℕ → Option LegQuote
  pub underlying_quote : ℕ → Option Spot
  pub account : Option AccountSnapshot

pub data GateDenial : Type 0 where
  no_legs leg_not_object leg_incomplete : GateDenial
  role_denied : RoleDenial → GateDenial
  concurrency_denied : Denial → GateDenial
  checks_failed : List LegValidation → GateDenial

-- The opening contracts, and every leg.
pub record ParsedLegs : Type 0 where
  pub opening : List ℕ
  pub legs : List PlacementLeg

abbrev is_opening : SideText → EffectText → Bool
is_opening sell_text open_text = true
is_opening _ _ = false

abbrev is_closing : SideText → EffectText → Bool
is_closing buy_text close_text = true
is_closing _ _ = false

abbrev pub add_leg : ℕ → SideText → EffectText → ParsedLegs → ParsedLegs
add_leg option_id side effect rest = record {
  opening = if is_opening side effect then option_id ∷ rest.opening else rest.opening;
  legs = record { option_id = option_id; closing = is_closing side effect } ∷ rest.legs;
}

abbrev pub with_rest : ℕ → SideText → EffectText → GateDenial ⊎ ParsedLegs → GateDenial ⊎ ParsedLegs
with_rest option_id side effect (inl denial) = inl denial
with_rest option_id side effect (inr rest) = inr (add_leg option_id side effect rest)

abbrev pub with_leg :
    Option SideText
    → Option EffectText
    → Option ℕ
    → GateDenial ⊎ ParsedLegs
    → GateDenial ⊎ ParsedLegs
with_leg (some side) (some effect) (some option_id) rest = with_rest option_id side effect rest
with_leg _ _ _ rest = inl leg_incomplete

-- The loop over the legs; the first that cannot be read is the denial.
abbrev pub parse_legs : List (Option LegInput) → GateDenial ⊎ ParsedLegs
parse_legs [] = inr (record { opening = []; legs = [] })
parse_legs (none ∷ rest) = inl leg_not_object
parse_legs (some leg ∷ rest) =
    let parsed = parse_legs rest in with_leg leg.side leg.position_effect leg.option_id parsed

abbrev pub parse : Option (List (Option LegInput)) → GateDenial ⊎ ParsedLegs
parse none = inl no_legs
parse (some []) = inl no_legs
parse (some (leg ∷ legs)) = parse_legs (leg ∷ legs)

abbrev sell_to_open_text : Text
sell_to_open_text = codes "sell_to_open"

abbrev pub buy_to_close_text : Text
buy_to_close_text = codes "buy_to_close"

-- `OrderSide(side_raw)`, which compares the text as it is
abbrev pub side_of_text : Text → Option OrderSide
side_of_text text =
    if same_text text sell_to_open_text
    then some sell_to_open
    else if same_text text buy_to_close_text
    then some buy_to_close
    else none

-- `OrderIntent.side`
abbrev pub side_of : Option Text → Option OrderSide
side_of none = none
side_of (some text) = side_of_text text

-- `(intent.side_raw or "").lower() == "buy_to_close"`
abbrev pub is_close_order : Option Text → Bool
is_close_order side_raw = same_text (lowered (get_or [] side_raw)) buy_to_close_text

-- `intent.quantity - (filled or 0) if intent.quantity else None`
abbrev pub remaining_of : Option ℕ → Option ℕ → Option ℤ
remaining_of none filled = none
remaining_of (some quantity) filled =
    if quantity == 0 then none else some (of_diff quantity (get_or 0 filled))

abbrev pub working_with : ℕ → Option ℕ → Option Intent → WorkingPlacement
working_with label filled none = record {
  label = label;
  option_id = none;
  closing = false;
  remaining_quantity = none;
  limit_price = none;
}
working_with label filled (some intent) = record {
  label = label;
  option_id = intent.broker_instrument_id;
  closing = is_close_order intent.side_raw;
  remaining_quantity = remaining_of intent.quantity filled;
  limit_price = intent.limit_price;
}

-- `_working`
abbrev pub working_of : PlacedOrder → WorkingPlacement
working_of o = working_with o.label o.filled_quantity o.intent

abbrev pub walk_of : WalkInProgress → WorkingPlacement
walk_of j = record {
  label = j.job_id;
  option_id = some j.option_id;
  closing = j.closing;
  remaining_quantity = some (pos j.remaining_quantity);
  limit_price = some j.worst_price;
}
