-- ===== src/PretradeGate/Passes.antt =====
-- What the gate before a placement (agent/pretrade_gate.py) lets through.
use wheelta_robinhood_agent.Common.{
  ℕ, ◌≤◌, ◌≡◌, ◌↔◌, ◌⊎◌, inl, inr, refl, ap, Bool, true, false, not, ◌&&◌, ◌||◌, Bool-cases, Option,
  none, some, List, [], ◌∷◌, map, All, is_empty, ltb, if◌then◌else◌, Result, ok, err, ◌>>=◌,
  ok-injective, aware, arith,
}
use wheelta_robinhood_agent.FactsRules.{CountSetting}
use wheelta_robinhood_agent.RoleGate.{AgentRole, RoleDenial, check_role}
use wheelta_robinhood_agent.RoleGate.Permitted.{check_role-IsPermitted}
use wheelta_robinhood_agent.Concurrency.{WorkingPlacement, Denial}
use wheelta_robinhood_agent.Concurrency.Allowed.{IsAffordable, check_concurrency-IsAffordable}
use wheelta_robinhood_agent.Pretrade.{
  PretradeRules, LegValidation, validate_opening_leg, pretrade_feedback,
}
use wheelta_robinhood_agent.Pretrade.Eligible.{IsEligible, feedback-IsEligible}
use wheelta_robinhood_agent.PretradeGate.Reading.{HasLegs, HasLegs-parse}
use wheelta_robinhood_agent.PretradeGate.Permission.{RoleAllows, IsPermitted-iff}
use wheelta_robinhood_agent.PretradeGate.Working.{Beside, Beside-eq, all-Beside}
use wheelta_robinhood_agent.PretradeGate.{
  Instrument, contract_of, underlying_of, without_own, ToolInput, PlacedOrder, WalkInProgress,
  PlacementState, RunEvidence, ParsedLegs, is_concurrent, all_working, multiplier_of, role_leg,
  fills_for, as_ordered, concurrency_denial, leg_input, failed, opening_denial, after_concurrency,
  with_state, with_role, own_state, gate,
}

nothing_working :
    (unresolved : List PlacedOrder) (jobs : List WalkInProgress) (n : ℕ)
    → (not (is_empty unresolved) || not (is_empty jobs) || ltb 0 n) ≡ false
    → (n ≡ 0)
      × (all_working
            (record { unresolved = unresolved; placements_in_flight = n; active_jobs = jobs })
          ≡ [])
nothing_working [] [] n h = (ground arith, refl)
nothing_working (o ∷ os) jobs n h = absurd cc
nothing_working [] (j ∷ js) n h = absurd cc

and_no : (e : Bool) → (e && false) ≡ false
and_no true = refl
and_no false = refl

and_yes : (e : Bool) → (e && true) ≡ e
and_yes true = refl
and_yes false = refl

module _ (market_date : ℕ → ℕ) (rules : PretradeRules) (account_age : CountSetting)
    (evidence : RunEvidence) (now : ℕ) where
  abbrev Eligible : List ℕ → Type 0
  Eligible opening =
      All (IsEligible market_date rules now)
        (map (leg_input market_date rules account_age evidence now) opening)

  abbrev OwnAllows : ToolInput → ParsedLegs → Option PlacementState → Type 0
  OwnAllows input parsed none = Unit {0}
  OwnAllows input parsed (some state) =
      (state.placements_in_flight ≡ 0)
      × ((all_working state ≡ [])
          ⊎ IsAffordable (λ option_id. multiplier_of (evidence.instrument option_id))
              evidence.account account_age (aware now)
              (record { legs = parsed.legs; quantity = input.quantity; limit_price = input.price })
              (all_working state))

  failed_iff :
      (o : Option (List LegValidation))
      → (failed market_date rules account_age evidence now o ≡ none) ↔ (o ≡ none)
  failed_iff none = ((λ h. refl), (λ h. refl))
  failed_iff (some vs) = ((λ h. absurd cc), (λ h. absurd cc))

  opening_iff :
      (opening : List ℕ)
      → (ok (opening_denial market_date rules account_age evidence now opening) ≡ ok none)
        ↔ Eligible opening
  opening_iff opening =
      let legs = map (leg_input market_date rules account_age evidence now) opening in
      let eligible = feedback-IsEligible market_date rules now legs in
      let denied =
        failed_iff (pretrade_feedback (map (validate_opening_leg market_date rules now) legs)) in
      ((λ h. eligible.0 (denied.0 (ok-injective h))), (λ h. ap ok (denied.1 (eligible.1 h))))

  empty_iff :
      (opening : List ℕ)
      → ((if is_empty opening
            then ok none
            else ok (opening_denial market_date rules account_age evidence now opening))
          ≡ ok none)
        ↔ Eligible opening
  empty_iff [] = ((λ h. tt), (λ h. refl))
  empty_iff (o ∷ os) = opening_iff (o ∷ os)

  bind_iff :
      (first : Result (Option Denial)) (opening : List ℕ)
      → ((first >>= after_concurrency market_date rules account_age evidence now opening) ≡ ok none)
        ↔ ((first ≡ ok none) × Eligible opening)
  bind_iff (err raised) opening = ((λ h. absurd cc), (λ h. absurd (let no_way = h.0 in cc)))
  bind_iff (ok (some denial)) opening = ((λ h. absurd cc), (λ h. absurd (let no_way = h.0 in cc)))
  bind_iff (ok none) opening = let e = empty_iff opening in ((λ h. (refl, e.0 h)), (λ h. e.1 h.1))

  module _ (input : ToolInput) (parsed : ParsedLegs) where
    concurrency_iff :
        (state : PlacementState)
        → (concurrency_denial market_date rules account_age evidence now input parsed state
            ≡ ok none)
          ↔ OwnAllows input parsed (some state)
    concurrency_iff state =
        check_concurrency-IsAffordable (λ option_id. multiplier_of (evidence.instrument option_id))
          evidence.account account_age (aware now)
          (record { legs = parsed.legs; quantity = input.quantity; limit_price = input.price })
          (all_working state) state.placements_in_flight now refl

    busy_iff :
        (state : PlacementState)
        → is_concurrent state ≡ true
        → (with_state market_date rules account_age evidence now input parsed (some state)
            ≡ ok none)
          ↔ (OwnAllows input parsed (some state) × Eligible parsed.opening)
    busy_iff state busy =
        let denial =
          concurrency_denial market_date rules account_age evidence now input parsed state in
        let bind = bind_iff denial parsed.opening in
        let conc = concurrency_iff state in
        rw (busy, and_no (is_empty parsed.opening))
          ((λ h. let p = bind.0 h in (conc.0 p.0, p.1)), (λ h. bind.1 (conc.1 h.0, h.1)))

    idle_iff :
        (state : PlacementState)
        → is_concurrent state ≡ false
        → (with_state market_date rules account_age evidence now input parsed (some state)
            ≡ ok none)
          ↔ (OwnAllows input parsed (some state) × Eligible parsed.opening)
    idle_iff state idle =
        let none_works =
          nothing_working state.unresolved state.active_jobs state.placements_in_flight idle in
        let e = empty_iff parsed.opening in
        rw (idle, and_yes (is_empty parsed.opening))
          ((λ h. ((none_works.0, inl none_works.1), e.0 h)), (λ h. e.1 h.1))

    state_iff :
        (state : Option PlacementState)
        → (with_state market_date rules account_age evidence now input parsed state ≡ ok none)
          ↔ (OwnAllows input parsed state × Eligible parsed.opening)
    state_iff none = let e = empty_iff parsed.opening in ((λ h. (tt, e.0 h)), (λ h. e.1 h.1))
    state_iff (some state) = elim (Bool-cases (is_concurrent state)) [
      | inl busy ↦ busy_iff state busy
      | inr idle ↦ idle_iff state idle
    ]

    role_iff :
        (state : Option PlacementState) (denial : Option RoleDenial)
        → (with_role market_date rules account_age evidence now input parsed state denial ≡ ok none)
          ↔ ((denial ≡ none) × (OwnAllows input parsed state × Eligible parsed.opening))
    role_iff state (some denial) = ((λ h. absurd cc), (λ h. absurd (let no_way = h.0 in cc)))
    role_iff state none = let s = state_iff state in ((λ h. (refl, s.0 h)), (λ h. s.1 h.1))

  -- A contract that is opened was read in this run, and its leg is eligible with the quotes of the
  -- contract and of its underlying.
  pub record OpensEligible (id : ℕ) : Type 0 where
    pub contract : Instrument
    pub contract_read : evidence.instrument id ≡ some contract
    pub eligible : IsEligible market_date rules now (record {
      option_id = id;
      instrument = some contract.contract;
      option_quote = evidence.option_quote id;
      underlying_quote = evidence.underlying_quote contract.underlying;
    })

  -- What is working allows the placement: nothing else is in flight, and nothing works or the placement
  -- is a close that is affordable beside what does.
  pub record IsAllowed (input : ToolInput) (parsed : ParsedLegs) (job : Option ℕ)
      (self_in_flight : Bool) (state : PlacementState) : Type 0 where
    pub alone : state.placements_in_flight ≤ (if self_in_flight then 1 else 0)
    pub beside : List WorkingPlacement
    pub are_beside : Beside job state beside
    pub affordable :
        (beside ≡ [])
        ⊎ IsAffordable
            (λ option_id. multiplier_of (evidence.instrument option_id))
            evidence.account
            account_age
            (aware now)
            (record { legs = parsed.legs; quantity = input.quantity; limit_price = input.price })
            beside

  abbrev pub StateAllows : ToolInput → ParsedLegs → Option ℕ → Bool → Option PlacementState → Type 0
  StateAllows input parsed job self_in_flight none = Unit {0}
  StateAllows input parsed job self_in_flight (some state) =
      IsAllowed input parsed job self_in_flight state

  own-allowed :
      (input : ToolInput) (parsed : ParsedLegs) (job : Option ℕ) (self_in_flight : Bool)
      (state : Option PlacementState)
      → OwnAllows input parsed
          (own_state market_date rules account_age evidence now job self_in_flight state)
        ↔ StateAllows input parsed job self_in_flight state
  own-allowed input parsed job self_in_flight none = ((λ h. tt), (λ h. tt))
  own-allowed input parsed job self_in_flight (some state) = (
    (λ h. record {
      alone = let none_else = h.0 in omega (arith, none_else);
      beside = all_working (without_own job self_in_flight state);
      are_beside = all-Beside job self_in_flight state;
      affordable = h.1;
    }),
    (λ h.
        let same = Beside-eq job self_in_flight state h.beside h.are_beside in
        let alone = h.alone in (omega (arith, alone), rw⁻¹ same h.affordable)),
  )

  found_eligible :
      (id : ℕ) (found : Option Instrument)
      → evidence.instrument id ≡ found
      → IsEligible market_date rules now (record {
        option_id = id;
        instrument = contract_of found;
        option_quote = evidence.option_quote id;
        underlying_quote = underlying_of market_date rules account_age evidence now found;
      })
      → OpensEligible id
  found_eligible id none e h = absurd (let no_contract = h.contract_read in cc)
  found_eligible id (some contract) e h = record {
    contract = contract;
    contract_read = e;
    eligible = h;
  }

  IsEligible-iff :
      (id : ℕ)
      → IsEligible market_date rules now (leg_input market_date rules account_age evidence now id)
        ↔ OpensEligible id
  IsEligible-iff id = (
    (λ h. found_eligible id (evidence.instrument id) refl h),
    (λ h. rw h.contract_read h.eligible),
  )

  all-Eligible : (opening : List ℕ) → Eligible opening ↔ All OpensEligible opening
  all-Eligible [] = ((λ h. tt), (λ h. tt))
  all-Eligible (id ∷ ids) =
      let first = IsEligible-iff id in
      let rest = all-Eligible ids in
      ((λ h. (first.0 h.0, rest.0 h.1)), (λ h. (first.1 h.0, rest.1 h.1)))

  -- A placement whose legs can be read (a sell to open as an opening leg, a buy to close as a closing one)
  -- passes the gate exactly when three things hold. Its role permits the legs: the selling agent's close
  -- nothing, and the closing agent's open only contracts read in this run, under fills of known contracts, by
  -- a known quantity that with what the run opened on the underlying and right is at most what it closed
  -- there. Nothing but itself is in flight, and no order (one whose recorded side spells a buy to close, in
  -- whatever case, is a closing one) and no walk but its own works, or it is a close that is affordable
  -- beside those that do. And every contract that it opens was read and is eligible.
  pub gate-passes :
      (role : AgentRole) (input : ToolInput) (run_orders : List PlacedOrder)
      (state : Option PlacementState) (job : Option ℕ) (self_in_flight : Bool) (parsed : ParsedLegs)
      → HasLegs input.legs parsed
      → (gate market_date rules account_age evidence now role input run_orders state job
            self_in_flight
          ≡ ok none)
        ↔ (RoleAllows market_date rules account_age evidence now role parsed input.quantity
              run_orders
            × (StateAllows input parsed job self_in_flight state
                × All OpensEligible parsed.opening))
  unfolding gate
  gate-passes role input run_orders state job self_in_flight parsed reads =
      let e = HasLegs-parse input.legs parsed reads in
      let own = own_state market_date rules account_age evidence now job self_in_flight state in
      let legs =
        map (role_leg market_date rules account_age evidence now parsed.opening) parsed.legs in
      let quantity = as_ordered market_date rules account_age evidence now input.quantity in
      let run =
        fills_for market_date rules account_age evidence now role parsed.opening run_orders in
      let permitted = check_role-IsPermitted role legs quantity run in
      let after = role_iff input parsed own (check_role role legs quantity run) in
      let by_role =
        IsPermitted-iff market_date rules account_age evidence now role input.legs parsed
          input.quantity run_orders reads in
      let allowed = own-allowed input parsed job self_in_flight state in
      let eligible = all-Eligible parsed.opening in
      rw e (
        (λ h.
            let p = after.0 h in
            (by_role.0 (permitted.0 p.0), (allowed.0 p.1.0, eligible.0 p.1.1))),
        (λ h. after.1 (permitted.1 (by_role.1 h.0), (allowed.1 h.1.0, eligible.1 h.1.1))),
      )
