-- ===== src/PretradeGate.antt =====
-- agent/pretrade_gate.py: the gate before a placement, which asks the role gate, the concurrency check and the
-- checks on opening legs in turn.
mod Input
pub mod Reading
pub mod Working
pub mod Roles
pub mod Permission
pub mod Passes
pub mod Samples
mod Tests
pub use wheelta_robinhood_agent.PretradeGate.Input.*
use wheelta_robinhood_agent.Common.{
  ℕ, ◌-◌, Bool, true, false, not, ◌&&◌, ◌||◌, Option, none, some, List, [], ◌∷◌, ◌++◌, map, ◌⊎◌,
  inl, inr, any, keep_if, is_empty, ltb, ◌==◌, if◌then◌else◌, get_or, is_some, ℤ, pos, of_diff,
  Result, ok, err, ◌>>=◌, aware,
}
use wheelta_robinhood_agent.OrderWalk.{OrderSide, sell_to_open, buy_to_close}
use wheelta_robinhood_agent.FactsRules.{CountSetting}
use wheelta_robinhood_agent.RoleGate.{
  AgentRole, wheel, sell, close, OccSymbol, RoleLeg, RunFill, RoleDenial, check_role,
}
use wheelta_robinhood_agent.Concurrency.{
  PlacementLeg, NewPlacement, WorkingPlacement, AccountSnapshot, Denial, check_concurrency,
}
use wheelta_robinhood_agent.Pretrade.{
  PretradeRules, Contract, LegQuote, Spot, OpeningLeg, LegValidation, validate_opening_leg,
  pretrade_feedback,
}

abbrev pub unexcluded : Option ℕ → List WalkInProgress → List WalkInProgress
unexcluded none jobs = jobs
unexcluded (some job) jobs = keep_if (λ j. not (j.job_id == job)) jobs

-- The state without the order that is being checked.
abbrev pub without_own : Option ℕ → Bool → PlacementState → PlacementState
without_own job self_in_flight state = record state {
  placements_in_flight = state.placements_in_flight - (if self_in_flight then 1 else 0);
  active_jobs = unexcluded job state.active_jobs;
}

abbrev pub is_concurrent : PlacementState → Bool
is_concurrent state =
    not (is_empty state.unresolved)
    || not (is_empty state.active_jobs)
    || ltb 0 state.placements_in_flight

abbrev pub all_working : PlacementState → List WorkingPlacement
all_working state = map working_of state.unresolved ++ map walk_of state.active_jobs

abbrev pub symbol_of : Option Instrument → Option OccSymbol
symbol_of none = none
symbol_of (some instrument) = some instrument.occ_symbol

abbrev pub multiplier_of : Option Instrument → Option ℕ
multiplier_of none = none
multiplier_of (some instrument) = instrument.multiplier

abbrev pub contract_of : Option Instrument → Option Contract
contract_of none = none
contract_of (some instrument) = some instrument.contract

abbrev pub or_symbol : Option OccSymbol → Option OccSymbol → Option OccSymbol
or_symbol (some symbol) otherwise = some symbol
or_symbol none otherwise = otherwise

abbrev pub is_in : ℕ → List ℕ → Bool
is_in option_id opening = any (λ o. o == option_id) opening

module _ (market_date : ℕ → ℕ) (rules : PretradeRules) (account_age : CountSetting)
    (evidence : RunEvidence) (now : ℕ) where
  abbrev pub looked_up : Option ℕ → Option OccSymbol
  looked_up none = none
  looked_up (some option_id) = symbol_of (evidence.instrument option_id)

  abbrev pub role_leg : List ℕ → PlacementLeg → RoleLeg
  role_leg opening leg =
      let opens = is_in leg.option_id opening in
      record {
        option_id = leg.option_id;
        closing = leg.closing;
        opening = opens;
        occ_symbol = if opens then symbol_of (evidence.instrument leg.option_id) else none;
      }

  abbrev pub fill_quantity : OrderSide → Option ℕ → Option ℕ → ℕ
  fill_quantity buy_to_close quantity filled = get_or 0 filled
  fill_quantity sell_to_open quantity filled = get_or 0 quantity

  abbrev pub fill_with : Option ℕ → Intent → Option OrderSide → List RunFill → List RunFill
  fill_with filled intent none rest = rest
  fill_with filled intent (some side) rest =
      record {
        side = side;
        occ_symbol = or_symbol intent.occ_symbol (looked_up intent.broker_instrument_id);
        quantity = fill_quantity side intent.quantity filled;
      }
      ∷ rest

  abbrev pub fill_from : Option ℕ → Option Intent → List RunFill → List RunFill
  fill_from filled none rest = rest
  fill_from filled (some intent) rest = fill_with filled intent (side_of intent.side_raw) rest

  abbrev pub run_fills : List PlacedOrder → List RunFill
  run_fills [] = []
  run_fills (o ∷ os) = let rest = run_fills os in fill_from o.filled_quantity o.intent rest

  abbrev pub fills_for : AgentRole → List ℕ → List PlacedOrder → List RunFill
  fills_for close opening run_orders = if is_empty opening then [] else run_fills run_orders
  fills_for sell opening run_orders = []
  fills_for wheel opening run_orders = []

  abbrev pub as_ordered : Option ℕ → Option ℤ
  as_ordered none = none
  as_ordered (some n) = some (pos n)

  -- `_role`; the single agent is not asked.
  abbrev pub role_denial : AgentRole → ParsedLegs → Option ℕ → List PlacedOrder → Option RoleDenial
  role_denial role parsed quantity run_orders =
      check_role role (map (role_leg parsed.opening) parsed.legs) (as_ordered quantity)
        (fills_for role parsed.opening run_orders)

  -- `_concurrency`
  abbrev pub concurrency_denial : ToolInput → ParsedLegs → PlacementState → Result (Option Denial)
  concurrency_denial input parsed state =
      check_concurrency (λ option_id. multiplier_of (evidence.instrument option_id))
        evidence.account account_age (aware now)
        (record { legs = parsed.legs; quantity = input.quantity; limit_price = input.price })
        (all_working state) state.placements_in_flight

  abbrev pub underlying_of : Option Instrument → Option Spot
  underlying_of none = none
  underlying_of (some instrument) = evidence.underlying_quote instrument.underlying

  abbrev pub leg_input : ℕ → OpeningLeg
  leg_input option_id = record {
    option_id = option_id;
    instrument = contract_of (evidence.instrument option_id);
    option_quote = evidence.option_quote option_id;
    underlying_quote = underlying_of (evidence.instrument option_id);
  }

  abbrev pub failed : Option (List LegValidation) → Option GateDenial
  failed none = none
  failed (some validations) = some (checks_failed validations)

  abbrev pub opening_denial : List ℕ → Option GateDenial
  opening_denial opening =
      failed (
        pretrade_feedback
          (map (validate_opening_leg market_date rules now) (map leg_input opening)))

  abbrev pub after_concurrency : List ℕ → Option Denial → Result (Option GateDenial)
  after_concurrency opening (some denial) = ok (some (concurrency_denied denial))
  after_concurrency opening none = if is_empty opening then ok none else ok (opening_denial opening)

  abbrev pub with_state :
      ToolInput → ParsedLegs → Option PlacementState → Result (Option GateDenial)
  with_state input parsed none =
      if is_empty parsed.opening then ok none else ok (opening_denial parsed.opening)
  with_state input parsed (some state) =
      if is_empty parsed.opening && not (is_concurrent state)
      then ok none
      else if is_concurrent state
      then (do
        denial ← concurrency_denial input parsed state
        after_concurrency parsed.opening denial)
      else ok (opening_denial parsed.opening)

  abbrev pub with_role :
      ToolInput
      → ParsedLegs
      → Option PlacementState
      → Option RoleDenial
      → Result (Option GateDenial)
  with_role input parsed state (some denial) = ok (some (role_denied denial))
  with_role input parsed state none = with_state input parsed state

  abbrev pub own_state : Option ℕ → Bool → Option PlacementState → Option PlacementState
  own_state job self_in_flight none = none
  own_state job self_in_flight (some state) = some (without_own job self_in_flight state)

  abbrev pub gate_parsed :
      AgentRole
      → ToolInput
      → List PlacedOrder
      → Option PlacementState
      → GateDenial ⊎ ParsedLegs
      → Result (Option GateDenial)
  gate_parsed role input run_orders state (inl denial) = ok (some denial)
  gate_parsed role input run_orders state (inr parsed) =
      with_role input parsed state (role_denial role parsed input.quantity run_orders)

  -- `PretradeGate.__call__`
  unfoldable pub gate :
      AgentRole
      → ToolInput
      → List PlacedOrder
      → Option PlacementState
      → Option ℕ
      → Bool
      → Result (Option GateDenial)
  unfolding check_role check_concurrency validate_opening_leg pretrade_feedback
  gate role input run_orders state job self_in_flight =
      gate_parsed role input run_orders (own_state job self_in_flight state) (parse input.legs)
