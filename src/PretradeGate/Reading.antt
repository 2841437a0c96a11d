-- ===== src/PretradeGate/Reading.antt =====
-- What the gate of agent/pretrade_gate.py has to read of a placement's legs and of what is working already,
-- without the code's own functions.
use wheelta_robinhood_agent.Common.{
  ℕ, ◌≡◌, ◌≢◌, ◌⊎◌, inl, inr, refl, ap, ◌∙◌, true, false, Option, none, some, List, [], ◌∷◌,
}
use wheelta_robinhood_agent.Concurrency.{PlacementLeg}
use wheelta_robinhood_agent.PretradeGate.Input.{
  SideText, buy_text, sell_text, other_side, EffectText, open_text, close_text, other_effect,
  LegInput, GateDenial, ParsedLegs, add_leg, with_rest, with_leg, parse_legs, parse,
}

-- The legs of an input as they are read: a sell to open is an opening leg, a buy to close is a closing one,
-- and any other is neither.
pub data AreRead : List (Option LegInput) → ParsedLegs → Type 0 where
  no_more : AreRead [] (record { opening = []; legs = [] })
  sells_to_open :
      (id : ℕ) (inputs : List (Option LegInput)) (opening : List ℕ) (legs : List PlacementLeg)
      → AreRead inputs (record { opening = opening; legs = legs })
      → AreRead
          (some (record {
            side = some sell_text;
            position_effect = some open_text;
            option_id = some id;
          })
            ∷ inputs)
          (record {
            opening = id ∷ opening;
            legs = record { option_id = id; closing = false } ∷ legs;
          })
  buys_to_close :
      (id : ℕ) (inputs : List (Option LegInput)) (opening : List ℕ) (legs : List PlacementLeg)
      → AreRead inputs (record { opening = opening; legs = legs })
      → AreRead
          (some (record {
            side = some buy_text;
            position_effect = some close_text;
            option_id = some id;
          })
            ∷ inputs)
          (record { opening = opening; legs = record { option_id = id; closing = true } ∷ legs })
  does_neither :
      (side : SideText) (effect : EffectText) (id : ℕ) (inputs : List (Option LegInput))
      (opening : List ℕ) (legs : List PlacementLeg)
      → (side ≡ sell_text → effect ≢ open_text)
      → (side ≡ buy_text → effect ≢ close_text)
      → AreRead inputs (record { opening = opening; legs = legs })
      → AreRead
          (some (record { side = some side; position_effect = some effect; option_id = some id })
            ∷ inputs)
          (record { opening = opening; legs = record { option_id = id; closing = false } ∷ legs })

-- The input has legs, and they are read.
pub record HasLegs (legs : Option (List (Option LegInput))) (parsed : ParsedLegs) : Type 0 where
  pub first : Option LegInput
  pub others : List (Option LegInput)
  pub given : legs ≡ some (first ∷ others)
  pub are_read : AreRead (first ∷ others) parsed

add_read :
    (leg : LegInput) (side : SideText) (effect : EffectText) (id : ℕ)
    (inputs : List (Option LegInput)) (rest : ParsedLegs)
    → leg ≡ record { side = some side; position_effect = some effect; option_id = some id }
    → AreRead inputs rest
    → AreRead (some leg ∷ inputs) (add_leg id side effect rest)
add_read leg sell_text open_text id inputs rest e h =
    rw e (sells_to_open id inputs rest.opening rest.legs h)
add_read leg buy_text close_text id inputs rest e h =
    rw e (buys_to_close id inputs rest.opening rest.legs h)
add_read leg sell_text close_text id inputs rest e h =
    rw e
      (does_neither sell_text close_text id inputs rest.opening rest.legs (λ s o. cc) (λ s o. cc) h)
add_read leg sell_text other_effect id inputs rest e h =
    rw e (
      does_neither sell_text other_effect id inputs rest.opening rest.legs (λ s o. cc) (λ s o. cc)
        h)
add_read leg buy_text open_text id inputs rest e h =
    rw e
      (does_neither buy_text open_text id inputs rest.opening rest.legs (λ s o. cc) (λ s o. cc) h)
add_read leg buy_text other_effect id inputs rest e h =
    rw e (
      does_neither buy_text other_effect id inputs rest.opening rest.legs (λ s o. cc) (λ s o. cc) h)
add_read leg other_side effect id inputs rest e h =
    rw e (does_neither other_side effect id inputs rest.opening rest.legs (λ s o. cc) (λ s o. cc) h)

with_leg_read :
    (leg : LegInput) (inputs : List (Option LegInput)) (parsed : ParsedLegs)
    (side : Option SideText) (effect : Option EffectText) (id : Option ℕ)
    (rest : GateDenial ⊎ ParsedLegs)
    → leg ≡ record { side = side; position_effect = effect; option_id = id }
    → ((p : ParsedLegs) → rest ≡ inr p → AreRead inputs p)
    → with_leg side effect id rest ≡ inr parsed
    → AreRead (some leg ∷ inputs) parsed
with_leg_read leg inputs parsed (some side) (some effect) (some id) (inr rest) e read h =
    let same : add_leg id side effect rest ≡ parsed = cc in
    rw⁻¹ same (add_read leg side effect id inputs rest e (read rest refl))
with_leg_read leg inputs parsed (some side) (some effect) (some id) (inl denial) e read h =
    absurd cc
with_leg_read leg inputs parsed none effect id rest e read h = absurd cc
with_leg_read leg inputs parsed (some side) none id rest e read h = absurd cc
with_leg_read leg inputs parsed (some side) (some effect) none rest e read h = absurd cc

parse_legs-AreRead :
    (legs : List (Option LegInput)) (parsed : ParsedLegs)
    → parse_legs legs ≡ inr parsed
    → AreRead legs parsed
parse_legs-AreRead [] parsed h =
    let same : record { opening = []; legs = [] } ≡ parsed = cc in rw⁻¹ same no_more
parse_legs-AreRead (none ∷ rest) parsed h = absurd cc
parse_legs-AreRead (some leg ∷ rest) parsed h =
    with_leg_read leg rest parsed leg.side leg.position_effect leg.option_id (parse_legs rest) refl
      (parse_legs-AreRead rest) h

pub parse-HasLegs :
    (legs : Option (List (Option LegInput))) (parsed : ParsedLegs)
    → parse legs ≡ inr parsed
    → HasLegs legs parsed
parse-HasLegs none parsed h = absurd cc
parse-HasLegs (some []) parsed h = absurd cc
parse-HasLegs (some (leg ∷ legs)) parsed h = record {
  first = leg;
  others = legs;
  given = refl;
  are_read = parse_legs-AreRead (leg ∷ legs) parsed h;
}

add_neither :
    (side : SideText) (effect : EffectText) (id : ℕ) (rest : ParsedLegs)
    → (side ≡ sell_text → effect ≢ open_text)
    → (side ≡ buy_text → effect ≢ close_text)
    → add_leg id side effect rest ≡ record {
      opening = rest.opening;
      legs = record { option_id = id; closing = false } ∷ rest.legs;
    }
add_neither sell_text open_text id rest f g = absurd (f refl refl)
add_neither buy_text close_text id rest f g = absurd (g refl refl)
add_neither sell_text close_text id rest f g = refl
add_neither sell_text other_effect id rest f g = refl
add_neither buy_text open_text id rest f g = refl
add_neither buy_text other_effect id rest f g = refl
add_neither other_side effect id rest f g = refl

AreRead-parse_legs :
    (legs : List (Option LegInput)) (parsed : ParsedLegs)
    → AreRead legs parsed
    → parse_legs legs ≡ inr parsed
AreRead-parse_legs _ _ no_more = refl
AreRead-parse_legs _ _ (sells_to_open id inputs opening legs h) =
    ap (with_rest id sell_text open_text) (AreRead-parse_legs inputs _ h)
AreRead-parse_legs _ _ (buys_to_close id inputs opening legs h) =
    ap (with_rest id buy_text close_text) (AreRead-parse_legs inputs _ h)
AreRead-parse_legs _ _ (does_neither side effect id inputs opening legs f g h) =
    ap (with_rest id side effect) (AreRead-parse_legs inputs _ h)
    ∙ ap inr (add_neither side effect id _ f g)

pub HasLegs-parse :
    (legs : Option (List (Option LegInput))) (parsed : ParsedLegs)
    → HasLegs legs parsed
    → parse legs ≡ inr parsed
HasLegs-parse legs parsed h =
    ap parse h.given ∙ AreRead-parse_legs (h.first ∷ h.others) parsed h.are_read
