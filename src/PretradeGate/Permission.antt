-- ===== src/PretradeGate/Permission.antt =====
-- The legs that an agent's role permits in the gate of agent/pretrade_gate.py.
use wheelta_robinhood_agent.Common.{
  ℕ, ◌+◌, ◌≤◌, ◌≡◌, ◌≢◌, ◌↔◌, refl, true, false, inl, inr, Bool-cases, Option, none, some, List, [],
  ◌∷◌, map, All, any, ◌==◌, ==_iff, ℤ, pos, arith,
}
use mathlib.Core.Path.{subst}
use wheelta_robinhood_agent.OrderWalk.{OrderSide, sell_to_open, buy_to_close}
use wheelta_robinhood_agent.FactsRules.{CountSetting}
use wheelta_robinhood_agent.RoleGate.{
  AgentRole, wheel, sell, close, OccSymbol, RoleLeg, RunFill, is_unattributed, closed_on, opened_on,
}
use wheelta_robinhood_agent.RoleGate.Permitted.{IsPermitted, IsReplacement}
use wheelta_robinhood_agent.Concurrency.{PlacementLeg}
use wheelta_robinhood_agent.Pretrade.{PretradeRules}
use wheelta_robinhood_agent.PretradeGate.{
  LegInput, PlacedOrder, Instrument, RunEvidence, ParsedLegs, is_in, symbol_of, run_fills,
  fills_for, as_ordered, role_leg,
}
use wheelta_robinhood_agent.PretradeGate.Reading.{
  AreRead, no_more, sells_to_open, buys_to_close, does_neither, HasLegs,
}
use wheelta_robinhood_agent.PretradeGate.Roles.{AreFills, AreFills-eq, run_counted-AreFills}

-- Every fill of the run that opened has a known contract.
abbrev pub AreAttributed : List RunFill → Type 0
AreAttributed fills = All (λ f. f.side ≡ sell_to_open → f.occ_symbol ≢ none) fills

attributed_one :
    (f : RunFill) → (is_unattributed f ≡ false) ↔ (f.side ≡ sell_to_open → f.occ_symbol ≢ none)
attributed_one f = (
  (λ h opens unknown. unknown_opened f h opens unknown),
  (λ h. by_parts f.side f.occ_symbol refl refl h),
)
  where
    unknown_opened :
        (f : RunFill) → is_unattributed f ≡ false → f.side ≡ sell_to_open → f.occ_symbol ≢ none
    unknown_opened f h opens unknown = let h' = rw (opens, unknown) at h in cc

    by_parts :
        (side : OrderSide) (symbol : Option OccSymbol)
        → f.side ≡ side
        → f.occ_symbol ≡ symbol
        → (f.side ≡ sell_to_open → f.occ_symbol ≢ none)
        → is_unattributed f ≡ false
    by_parts sell_to_open none e g h = absurd (h e g)
    by_parts sell_to_open (some symbol) e g h = rw (e, g) refl
    by_parts buy_to_close symbol e g h = rw e refl

attributed_iff : (fills : List RunFill) → (any is_unattributed fills ≡ false) ↔ AreAttributed fills
attributed_iff [] = ((λ h. tt), (λ h. refl))
attributed_iff (f ∷ fills) =
    let first = attributed_one f in
    let rest = attributed_iff fills in
    elim (Bool-cases (is_unattributed f)) [
      | inl unknown ↦ (
        (λ h. absurd (let h' = rw unknown at h in cc)),
        (λ h. absurd (let known = first.1 h.0 in cc)),
      )
      | inr known ↦ ((λ h. (first.0 known, rest.0 (rw known at h))), (λ h. rw known (rest.1 h.1)))
    ]

all_in : (xs : List ℕ) → All (λ id. is_in id xs ≡ true) xs
all_in [] = tt
all_in (x ∷ xs) = let same : (x == x) ≡ true = ground arith in (rw same refl, later xs (all_in xs))
  where
    later :
        (ys : List ℕ) → All (λ id. is_in id xs ≡ true) ys → All (λ id. is_in id (x ∷ xs) ≡ true) ys
    later [] h = tt
    later (y ∷ ys) h = (
      elim (Bool-cases (x == y)) [ inl same ↦ rw same refl | inr apart ↦ rw apart h.0 ],
      later ys h.1,
    )

from_all : (P : ℕ → Type 0) (xs : List ℕ) (id : ℕ) → All P xs → is_in id xs ≡ true → P id
from_all P [] id h e = absurd cc
from_all P (x ∷ xs) id h e = elim (Bool-cases (x == id)) [
  | inl same ↦ subst P ((==_iff x id).0 same) h.0
  | inr apart ↦ from_all P xs id h.1 (rw apart at e)
]

module _ (market_date : ℕ → ℕ) (rules : PretradeRules) (account_age : CountSetting)
    (evidence : RunEvidence) (now : ℕ) where
  -- A contract that is opened as a replacement: it was read in this run, and its quantity with what the run
  -- opened on its underlying and right is at most what the run closed there.
  pub record Replaces (fills : List RunFill) (quantity : Option ℕ) (id : ℕ) : Type 0 where
    pub contract : Instrument
    pub contract_read : evidence.instrument id ≡ some contract
    pub ordered : ℕ
    pub ordered_is : quantity ≡ some ordered
    pub attributed : AreAttributed fills
    pub room : ordered + opened_on fills contract.occ_symbol ≤ closed_on fills contract.occ_symbol

  -- The run's fills, under which every contract that is opened is a replacement.
  pub record RollsOnly (run_orders : List PlacedOrder) (quantity : Option ℕ) (opening : List ℕ)
      : Type 0 where
    pub fills : List RunFill
    pub are_fills : AreFills market_date rules account_age evidence now run_orders fills
    pub replaces : All (Replaces fills quantity) opening

  abbrev pub RoleAllows : AgentRole → ParsedLegs → Option ℕ → List PlacedOrder → Type 0
  RoleAllows wheel parsed quantity run_orders = Unit {0}
  RoleAllows sell parsed quantity run_orders = All (λ leg. leg.closing ≡ false) parsed.legs
  RoleAllows close parsed quantity run_orders = RollsOnly run_orders quantity parsed.opening

  abbrev as_role_leg : List ℕ → PlacementLeg → RoleLeg
  as_role_leg opening leg = role_leg market_date rules account_age evidence now opening leg

  abbrev ordered_as : Option ℕ → Option ℤ
  ordered_as quantity = as_ordered market_date rules account_age evidence now quantity

  sell_iff :
      (opening : List ℕ) (legs : List PlacementLeg)
      → All (λ leg. leg.closing ≡ false) (map (as_role_leg opening) legs)
        ↔ All (λ leg. leg.closing ≡ false) legs
  sell_iff opening [] = ((λ h. tt), (λ h. tt))
  sell_iff opening (leg ∷ legs) =
      let rest = sell_iff opening legs in ((λ h. (h.0, rest.0 h.1)), (λ h. (h.0, rest.1 h.1)))

  module _ (quantity : Option ℕ) (full : List ℕ) (fills : List RunFill) where
    known_contract :
        (id : ℕ) (key : OccSymbol) (found : Option Instrument)
        → evidence.instrument id ≡ found
        → symbol_of found ≡ some key
        → (contract : Instrument) × ((evidence.instrument id ≡ some contract)
            × (contract.occ_symbol ≡ key))
    known_contract id key none e h = absurd cc
    known_contract id key (some contract) e h = (contract, (e, cc))

    known_quantity :
        (q : Option ℕ) (n : ℤ) → ordered_as q ≡ some n → (k : ℕ) × ((q ≡ some k) × (n ≡ pos k))
    known_quantity none n h = absurd cc
    known_quantity (some k) n h = (k, (refl, cc))

    to_Replaces :
        (leg : PlacementLeg)
        → is_in leg.option_id full ≡ true
        → IsReplacement (ordered_as quantity) fills (as_role_leg full leg)
        → Replaces fills quantity leg.option_id
    to_Replaces leg opens r =
        let key_is : symbol_of (evidence.instrument leg.option_id) ≡ some r.key =
          let k = r.key_is in rw opens at k in
        let (contract, (read, at_key)) =
          known_contract leg.option_id r.key (evidence.instrument leg.option_id) refl key_is in
        let (n, (is_n, at_n)) = known_quantity quantity r.ordered r.ordered_is in
        record {
          contract = contract;
          contract_read = read;
          ordered = n;
          ordered_is = is_n;
          attributed = (attributed_iff fills).0 r.attributed;
          room =
              let room = r.room in let room' = rw at_n at room in rw at_key (omega (arith, room'));
        }

    from_Replaces :
        (leg : PlacementLeg)
        → is_in leg.option_id full ≡ true
        → Replaces fills quantity leg.option_id
        → IsReplacement (ordered_as quantity) fills (as_role_leg full leg)
    from_Replaces leg opens r = record {
      attributed = (attributed_iff fills).1 r.attributed;
      key = r.contract.occ_symbol;
      key_is = rw (opens, r.contract_read) refl;
      ordered = pos r.ordered;
      ordered_is = rw r.ordered_is refl;
      room = let room = r.room in omega (arith, room);
    }

    abbrev Permits : List RoleLeg → Type 0
    Permits legs =
        All (λ leg. leg.opening ≡ true → IsReplacement (ordered_as quantity) fills leg) legs

    opened_each :
        (inputs : List (Option LegInput)) (parsed : ParsedLegs)
        → AreRead inputs parsed
        → All (λ id. is_in id full ≡ true) parsed.opening
        → Permits (map (as_role_leg full) parsed.legs)
        → All (Replaces fills quantity) parsed.opening
    opened_each _ _ no_more among h = tt
    opened_each _ _ (sells_to_open id inputs opening legs reads) among h =
        let leg : PlacementLeg = record { option_id = id; closing = false } in
        (
          to_Replaces leg among.0 (h.0 among.0),
          opened_each inputs (record { opening = opening; legs = legs }) reads among.1 h.1,
        )
    opened_each _ _ (buys_to_close id inputs opening legs reads) among h =
        opened_each inputs (record { opening = opening; legs = legs }) reads among h.1
    opened_each _ _ (does_neither side effect id inputs opening legs f g reads) among h =
        opened_each inputs (record { opening = opening; legs = legs }) reads among h.1

    Permits-each :
        (legs : List PlacementLeg)
        → All (Replaces fills quantity) full
        → Permits (map (as_role_leg full) legs)
    Permits-each [] h = tt
    Permits-each (leg ∷ legs) h = (
      (λ opens.
          from_Replaces leg opens (from_all (Replaces fills quantity) full leg.option_id h opens)),
      Permits-each legs h,
    )

  -- Nothing is permitted under the fills of a placement that opens nothing but what is under any.
  fills_used :
      (quantity : Option ℕ) (opening : List ℕ) (run_orders : List PlacedOrder)
      → All
          (Replaces
            (fills_for market_date rules account_age evidence now close opening run_orders)
            quantity)
          opening
        ↔ All
            (Replaces (run_fills market_date rules account_age evidence now run_orders) quantity)
            opening
  fills_used quantity [] run_orders = ((λ h. tt), (λ h. tt))
  fills_used quantity (id ∷ ids) run_orders = ((λ h. h), (λ h. h))

  pub IsPermitted-iff :
      (role : AgentRole) (legs : Option (List (Option LegInput))) (parsed : ParsedLegs)
      (quantity : Option ℕ) (run_orders : List PlacedOrder)
      → HasLegs legs parsed
      → IsPermitted role
          (map (as_role_leg parsed.opening) parsed.legs)
          (ordered_as quantity)
          (fills_for market_date rules account_age evidence now role parsed.opening run_orders)
        ↔ RoleAllows role parsed quantity run_orders
  IsPermitted-iff wheel legs parsed quantity run_orders reads = ((λ h. tt), (λ h. tt))
  IsPermitted-iff sell legs parsed quantity run_orders reads = sell_iff parsed.opening parsed.legs
  IsPermitted-iff close legs parsed quantity run_orders reads =
      let fills =
        fills_for market_date rules account_age evidence now close parsed.opening run_orders in
      let used = fills_used quantity parsed.opening run_orders in
      (
        (λ h. record {
          fills = run_fills market_date rules account_age evidence now run_orders;
          are_fills = run_counted-AreFills market_date rules account_age evidence now run_orders;
          replaces = used.0 (
              opened_each quantity parsed.opening fills (reads.first ∷ reads.others) parsed
                reads.are_read (all_in parsed.opening) h);
        }),
        (λ h.
            let same =
              AreFills-eq market_date rules account_age evidence now run_orders h.fills
                h.are_fills in
            Permits-each quantity parsed.opening fills parsed.legs
              (used.1 (subst (λ fs. All (Replaces fs quantity) parsed.opening) same h.replaces))),
      )
