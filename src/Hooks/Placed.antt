-- ===== src/Hooks/Placed.antt =====
-- A placement's whole way through the checks: `decide` of agent/hooks.py with the gate of agent/pretrade_gate.py
-- injected. How a call's JSON arguments are read, and the text of a denial, are parameters.
use wheelta_robinhood_agent.Common.{
  ℕ, ◌≡◌, refl, ◌⊎◌, inl, inr, Bool, true, not, ◌&&◌, Option, none, some, is_some, List, All,
  Result, ok, err, Dict,
}
use wheelta_robinhood_agent.FactsRules.{CountSetting}
use wheelta_robinhood_agent.RoleGate.{AgentRole}
use wheelta_robinhood_agent.Pretrade.{PretradeRules}
use wheelta_robinhood_agent.PretradeGate.{
  ToolInput, PlacedOrder, PlacementState, RunEvidence, ParsedLegs, GateDenial, parse, own_state,
  gate_parsed, gate,
}
use wheelta_robinhood_agent.PretradeGate.Passes.{StateAllows, OpensEligible, gate-passes}
use wheelta_robinhood_agent.PretradeGate.Reading.{HasLegs, parse-HasLegs}
use wheelta_robinhood_agent.PretradeGate.Permission.{RoleAllows}
use wheelta_robinhood_agent.AccountScope.{Argument}
use wheelta_robinhood_agent.Hooks.{
  robinhood, place_order_tool, Attempt, raised, returned, passed, Placement, HookDeps, HookState,
}
use wheelta_robinhood_agent.Hooks.Resolve.{Resolved, Caller, ExecutorCall, Decision, is_orders}
use wheelta_robinhood_agent.Hooks.Checks.{job_of}
use wheelta_robinhood_agent.Hooks.Decide.{is_call, decide}
use wheelta_robinhood_agent.Hooks.Decided.{decide-IsPermitted}

-- What the gate returned, or that it raised.
abbrev pub as_attempt : (GateDenial → ℕ) → Result (Option GateDenial) → Attempt (Option ℕ)
as_attempt text_of (err e) = raised
as_attempt text_of (ok none) = returned none
as_attempt text_of (ok (some denial)) = returned (some (text_of denial))

attempt_clear :
    (text_of : GateDenial → ℕ) (r : Result (Option GateDenial))
    → as_attempt text_of r ≡ returned none
    → r ≡ ok none
attempt_clear text_of (err e) h = absurd cc
attempt_clear text_of (ok none) h = refl
attempt_clear text_of (ok (some denial)) h = absurd cc

module _ (market_date : ℕ → ℕ) (rules : PretradeRules) (account_age : CountSetting)
    (evidence : RunEvidence) (now : ℕ) (role : AgentRole) (run_orders : List PlacedOrder)
    (state : Option PlacementState) (read : Placement → ToolInput) (text_of : GateDenial → ℕ) where
  abbrev pub injected : Placement → Option ℕ → Bool → Attempt (Option ℕ)
  injected placement job self_in_flight = as_attempt text_of (
      gate market_date rules account_age evidence now role (read placement) run_orders state job
        self_in_flight)

  -- The role permits the legs that are read from the arguments, what is already working allows the
  -- placement, and every leg that it opens is eligible.
  abbrev pub IsChecked : ToolInput → Option ℕ → Bool → ParsedLegs → Type 0
  IsChecked input job self_in_flight parsed =
      HasLegs input.legs parsed
      × (RoleAllows market_date rules account_age evidence now role parsed input.quantity run_orders
          × (StateAllows market_date rules account_age evidence now input parsed job self_in_flight
                state
              × All (OpensEligible market_date rules account_age evidence now) parsed.opening))

  gate-IsChecked :
      (input : ToolInput) (job : Option ℕ) (self_in_flight : Bool) (o : GateDenial ⊎ ParsedLegs)
      → parse input.legs ≡ o
      → gate_parsed market_date rules account_age evidence now role input run_orders
          (own_state market_date rules account_age evidence now job self_in_flight state)
          o
        ≡ ok none
      → gate market_date rules account_age evidence now role input run_orders state job
          self_in_flight
        ≡ ok none
      → (parsed : ParsedLegs) × IsChecked input job self_in_flight parsed
  gate-IsChecked input job self_in_flight (inl denial) e h k = absurd cc
  gate-IsChecked input job self_in_flight (inr parsed) e h k =
      let reads = parse-HasLegs input.legs parsed e in
      let passes =
        gate-passes market_date rules account_age evidence now role input run_orders state job
          self_in_flight parsed reads in
      (parsed, (reads, passes.0 k))

  gate_clear :
      (input : ToolInput) (job : Option ℕ) (self_in_flight : Bool)
      → gate market_date rules account_age evidence now role input run_orders state job
          self_in_flight
        ≡ ok none
      → (parsed : ParsedLegs) × IsChecked input job self_in_flight parsed
  unfolding gate
  gate_clear input job self_in_flight h =
      gate-IsChecked input job self_in_flight (parse input.legs) refl h h

  -- With the pre-trade gate injected, a placement that `decide` lets through, of an agent or of the order
  -- executor, has legs that can be read; the agent's role permits them; nothing but the placement is in
  -- flight, and no order and no walk but its own job's works, or it is a close that is affordable beside
  -- those that do; and every contract that it opens was read and is eligible.
  pub decide-IsChecked :
      (deps : HookDeps) (s : HookState) (r : Resolved) (input : Dict Argument) (caller : Caller)
      (executor : Option ExecutorCall) (d : Decision)
      → deps.pretrade_gate ≡ some injected
      → (is_orders d.tier && is_call r robinhood place_order_tool) ≡ true
      → decide deps s r input caller executor ≡ passed d
      → (parsed : ParsedLegs) × IsChecked
          (read (Placement.given input))
          (job_of deps executor)
          (not (is_some executor))
          parsed
  decide-IsChecked deps s r input caller executor d injects places h =
      let permitted = decide-IsPermitted deps s r input caller executor d h in
      let cleared = permitted.actable.cleared places in
      let job = job_of deps executor in
      let self_in_flight = not (is_some executor) in
      let answer : injected (Placement.given input) job self_in_flight ≡ returned none =
        let same : cleared.gate ≡ injected = let g = cleared.gated in cc in
        let clear = cleared.clear in rw same at clear in
      gate_clear (read (Placement.given input)) job self_in_flight (attempt_clear text_of _ answer)
